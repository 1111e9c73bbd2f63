-- ===== src/Sources/Api.antt =====
-- app/sources/api_source.py: a JSON endpoint that is read page by page.
pub mod Requests
pub mod Paging
use lead_pipe.Prelude.{
  ℕ, zero, suc, ◌+◌, Bool, true, false, not, ◌&&◌, Option, none, some, List, [], ◌∷◌, ◌++◌, map,
  ◌==◌, ltb, length, inl, inr, ◌⊎◌, if◌then◌else◌,
}
use lead_pipe.Prelude.Ints.{ℤ, next_ℤ, str_ℤ}
use lead_pipe.Prelude.Texts.{
  Text, codes, text_eq, truthy, or_none, is_space, strip_by, split_on, mem_text,
}
use lead_pipe.Prelude.Tables.{select, find}
use lead_pipe.Domain.{
  Dict, Json, Items, Members, null, object, array, nil, cons, end, member, RawRecord, put,
}
use lead_pipe.Libraries.{Urls, Values}
use lead_pipe.Config.{SourceConfig}
use lead_pipe.Fetch.Network.{FetchPolicy, FetchError, value_error, Network}
use lead_pipe.Fetch.Client.{Session}
use lead_pipe.Pipeline.Run.{Failure, source_error, crashed, Item, collected, rejected, Collection}
use lead_pipe.Sources.Loading.{Loaded, loaded, unusable, problem, load_text, no_items, only_failure}

pub record ApiOptions : Type 0 where
  pub url : Text
  pub items_path : Option Text
  pub next_path : Option Text
  pub page_param : Option Text
  pub start_page : ℤ
  pub max_pages : ℕ
  pub external_id_field : Option Text
  pub source_url_field : Option Text

-- `if path:` of an option
abbrev pub given : Option Text → Option Text
given none = none
given (some p) = if truthy p then some p else none

abbrev member_of : Text → Members → Option Json
member_of k end = none
member_of k (member j v ms) = if text_eq j k then some v else member_of k ms

-- one step of the walk; `null` ends it like a missing key
abbrev step : Text → Json → Option Json
step k (object ms) = elim (member_of k ms) [ none ↦ none | some null ↦ none | some v ↦ some v ]
step k _ = none

unfoldable pub walk : List Text → Json → Option Json
walk [] v = some v
walk (k ∷ ks) v = elim (step k v) [ none ↦ none | some x ↦ walk ks x ]

unfoldable pub dig : Json → Text → Option Json
unfolding walk
dig payload path = walk (split_on (λ c. c == 46) path) payload

abbrev elements : Items → List Json
elements nil = []
elements (cons v vs) = v ∷ elements vs

module _ ⦃v : Values⦄ where
  unfoldable pub text_of : Option Json → Option Text
  text_of none = none
  text_of (some null) = none
  text_of (some (array vs)) = none
  text_of (some (object ms)) = none
  text_of (some j) = or_none (strip_by is_space (v.str_of j))

  -- the fields that the mapping asks for, and the id
  unfoldable pub fields_of : SourceConfig → ApiOptions → Json → Dict (Option Text)
  fields_of config options item =
      let mapped = map (λ (target, path). (target, text_of (dig item path))) config.mapping in
      elim (given options.external_id_field) [
        | none ↦ mapped
        | some path ↦ put (codes "external_id") (text_of (dig item path)) mapped
      ]

  unfoldable pub to_record : SourceConfig → ApiOptions → Json → Text → ℕ → Item
  to_record config options (object ms) url collected_at = collected (record {
    source = record {
      name = config.name;
      url = elim (given options.source_url_field) [
        | none ↦ some url
        | some path ↦ text_of (dig (object ms) path)
      ];
    };
    fields = fields_of config options (object ms);
    raw = object ms;
    collected_at = collected_at;
  })
  to_record config options _ url collected_at = rejected (codes "item is not an object")

  -- what was found where the items are expected
  abbrev listed : Text → ApiOptions → Text → Option Json → Loaded (List Json)
  listed name options url none = loaded []
  listed name options url (some null) = loaded []
  listed name options url (some (array vs)) = loaded (elements vs)
  listed name options url _ = unusable (
      source_error (
        problem name (
          codes "expected a list at '"
          ++ ((elim (given options.items_path) [ none ↦ codes "(root)" | some p ↦ p ])
              ++ (codes "' in " ++ url)))))

  unfoldable pub items_of : Text → ApiOptions → Json → Text → Loaded (List Json)
  items_of name options payload url =
      listed name options url
        (elim (given options.items_path) [ none ↦ some payload | some path ↦ dig payload path ])

module _ ⦃w : Urls⦄ where
  -- `none` is the `ValueError` of `urlsplit`
  unfoldable pub with_param : Text → Text → ℤ → Option Text
  with_param url param value = elim (w.urlsplit url) [
    | none ↦ none
    | some parts ↦
        let kept =
          select (λ (key, item). not (text_eq key param)) (w.parse_qsl false parts.query) in
        some (
          w.urlunsplit parts.scheme parts.netloc parts.path
            (w.urlencode (kept ++ (param, str_ℤ value) ∷ [])) parts.fragment)
  ]

  unfoldable pub param_value : ⦃v : Values⦄ → Text → Text → ℤ → Option ℤ
  param_value ⦃v⦄ url param default = elim (w.urlsplit url) [
    | none ↦ none
    | some parts ↦ elim (find (λ (key, item). text_eq key param) (w.parse_qsl false parts.query)) [
      | none ↦ some default
      | some (key, value) ↦ elim (v.int_of value) [ none ↦ some default | some n ↦ some n ]
    ]
  ]

  -- both are `none` where `urlsplit` or `urljoin` raises, and else the url, if there is one
  unfoldable pub first_url : ApiOptions → Option (Option Text)
  first_url options = elim options.page_param [
    | none ↦ some (some options.url)
    | some param ↦ elim (with_param options.url param options.start_page) [
      | none ↦ none
      | some url ↦ some (some url)
    ]
  ]

  abbrev numbered : ⦃v : Values⦄ → ApiOptions → Text → Text → Option (Option Text)
  numbered options param current = elim (param_value current param options.start_page) [
    | none ↦ none
    | some page ↦ elim (with_param current param (next_ℤ page)) [
      | none ↦ none
      | some url ↦ some (some url)
    ]
  ]

  abbrev one_url : Option Text → Option (Option Text)
  one_url none = none
  one_url (some url) = some (some url)

  unfoldable pub next_url : ⦃v : Values⦄ → ApiOptions → Json → Text → ℕ → Option (Option Text)
  next_url ⦃v⦄ options payload current count = elim (given options.next_path) [
    | some path ↦ elim (dig payload path) [
      | none ↦ some none
      | some follow ↦
          if v.is_true follow then one_url (w.urljoin current (v.str_of follow)) else some none
    ]
    | none ↦ elim (given options.page_param) [
      | none ↦ some none
      | some param ↦ if ltb 0 count then numbered options param current else some none
    ]
  ]

module _ ⦃n : Network⦄ ⦃w : Urls⦄ ⦃v : Values⦄ (describe : FetchError → Text)
    (config : SourceConfig) (options : ApiOptions) (policy : FetchPolicy) (collected_at : ℕ) where
  abbrev decoded : Text → Loaded Text → Loaded Json
  decoded url (unusable f) = unusable f
  decoded url (loaded body) = elim (v.loads body) [
    | inl error ↦ unusable (
        source_error
          (problem config.name (codes "invalid JSON from " ++ (url ++ (codes ": " ++ error)))))
    | inr payload ↦ loaded payload
  ]

  unfoldable pub load : Text → Session → Loaded Json × Session
  load url s =
      let (body, s') = load_text describe config.name policy url s in (decoded url body, s')

  -- the items of a page, and the page
  abbrev pub page_of : Text → Loaded Json → Loaded (List Json × Json)
  page_of url (unusable f) = unusable f
  page_of url (loaded payload) = elim (items_of config.name options payload url) [
    | unusable f ↦ unusable f
    | loaded items ↦ loaded (items, payload)
  ]

  abbrev pub yielded : Text → List Json → List Item
  yielded url items = map (λ item. to_record config options item url collected_at) items

  -- the loop, with so many pages left
  unfoldable pub pages : ℕ → Option (Option Text) → List Text → Session → Collection × Session
  pages zero none seen s = (only_failure (crashed (describe value_error)), s)
  pages zero (some url) seen s = (no_items, s)
  pages (suc k) none seen s = (only_failure (crashed (describe value_error)), s)
  pages (suc k) (some none) seen s = (no_items, s)
  pages (suc k) (some (some url)) seen s =
      if mem_text url seen
      then (no_items, s)
      else let (answer, s') = load url s in
        elim (page_of url answer) [
          | unusable f ↦ (only_failure f, s')
          | loaded (items, payload) ↦
              let (rest, s'') =
                pages k (next_url options payload url (length items)) (url ∷ seen) s' in
              (record rest { items = yielded url items ++ rest.items }, s'')
        ]

  unfoldable pub collect : Session → Collection × Session
  collect s = pages options.max_pages (first_url options) [] s
