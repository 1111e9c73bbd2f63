-- ===== src/Sources/Html.antt =====
-- app/sources/html_source.py: a listing of pages, with a page of details for each entry. What
-- BeautifulSoup finds is an argument.
pub mod Requests
pub mod Items
use lead_pipe.Prelude.{
  ℕ, zero, suc, ◌+◌, Bool, true, false, not, ◌&&◌, Option, none, some, List, [], ◌∷◌, ◌++◌, map,
  take, ◌==◌, ltb, leb, if◌then◌else◌,
}
use lead_pipe.Prelude.Texts.{Text, codes, truthy, join, mem_text}
use lead_pipe.Normalization.Cleaning.{clean_text}
use lead_pipe.Domain.{Dict, Json, Members, text, object, end, member, put}
use lead_pipe.Libraries.{Urls, Attribute, one_value, many_values, Markup}
use lead_pipe.Config.{SourceConfig}
use lead_pipe.Fetch.Network.{FetchPolicy, FetchError, Network}
use lead_pipe.Fetch.Client.{Session}
use lead_pipe.Pipeline.Run.{Failure, source_error, crashed, Item, collected, rejected, Collection}
use lead_pipe.Sources.Loading.{Loaded, loaded, unusable, load_text, no_items, only_failure}
use lead_pipe.Sources.Api.{given}

pub record HtmlOptions : Type 0 where
  pub url : Text
  pub item_selector : Text
  pub detail_link : Option Text
  pub detail_mapping : Dict Text
  pub next_selector : Option Text
  pub max_pages : ℕ
  pub max_items : Option ℕ
  pub parser : Text

-- `spec.rpartition("@")` where there is an `@`
unfoldable pub rpartition : Text → Option (Text × Text)
rpartition [] = none
rpartition (c ∷ s) = elim (rpartition s) [
  | some (before, after) ↦ some (c ∷ before, after)
  | none ↦ if c == 64 then some ([], s) else none
]

-- the selector and the attribute of a spec
unfoldable pub spec_parts : Text → Text × Text
spec_parts spec = elim (rpartition spec) [ none ↦ (spec, []) | some parts ↦ parts ]

module _ ⦃m : Markup⦄ where
  -- `_clean`: as `clean_text`, the runs of white space are single blanks, and a blank text is `None`
  abbrev attribute_text : Option Attribute → Option Text
  attribute_text none = none
  attribute_text (some (one_value value)) = clean_text (some value)
  attribute_text (some (many_values values)) = clean_text (some (join (codes " ") values))

  abbrev read_node : Text → Option m.Node → Option Text
  read_node attribute none = none
  read_node attribute (some target) =
      if truthy attribute
      then attribute_text (m.attribute attribute target)
      else clean_text (some (m.get_text target))

  -- `none` is a selector that is refused
  unfoldable pub extract : Text → m.Node → Option (Option Text)
  extract spec node =
      let (selector, attribute) = spec_parts spec in
      if truthy selector
      then elim (m.select_one selector node) [
        | none ↦ none
        | some target ↦ some (read_node attribute target)
      ]
      else some (read_node attribute (some node))

  -- the fields of a mapping
  unfoldable pub extract_all : Dict Text → m.Node → Option (Dict (Option Text))
  extract_all [] node = some []
  extract_all ((target, spec) ∷ mapping) node = elim (extract spec node) [
    | none ↦ none
    | some value ↦ elim (extract_all mapping node) [
      | none ↦ none
      | some fields ↦ some ((target, value) ∷ fields)
    ]
  ]

  -- what the page of details adds to them
  unfoldable pub extract_details :
      Dict Text → m.Node → Dict (Option Text) → Option (Dict (Option Text))
  extract_details [] detail fields = some fields
  extract_details ((target, spec) ∷ mapping) detail fields = elim (extract spec detail) [
    | none ↦ none
    | some none ↦ extract_details mapping detail fields
    | some (some value) ↦ extract_details mapping detail (put target (some value) fields)
  ]

  abbrev one_url : Option Text → Option (Option Text)
  one_url none = none
  one_url (some url) = some (some url)

  -- `urljoin(url, href) if href else None`; `none` is the `ValueError`
  abbrev joined : ⦃w : Urls⦄ → Text → Option Text → Option (Option Text)
  joined ⦃w⦄ url none = some none
  joined ⦃w⦄ url (some href) = if truthy href then one_url (w.urljoin url href) else some none

  unfoldable pub detail_url : ⦃w : Urls⦄ → HtmlOptions → m.Node → Text → Option (Option Text)
  detail_url options node url = elim (given options.detail_link) [
    | none ↦ some none
    | some spec ↦ elim (extract spec node) [ none ↦ none | some href ↦ joined url href ]
  ]

  abbrev href_of : Option Attribute → Option Text
  href_of none = none
  href_of (some (one_value value)) = some value
  href_of (some (many_values values)) = some (join (codes " ") values)

  unfoldable pub next_url : ⦃w : Urls⦄ → HtmlOptions → m.Node → Text → Option (Option Text)
  next_url options page current = elim (given options.next_selector) [
    | none ↦ some none
    | some selector ↦ elim (m.select_one selector page) [
      | none ↦ none
      | some none ↦ some none
      | some (some link) ↦ joined current (href_of (m.attribute (codes "href") link))
    ]
  ]

module _ ⦃n : Network⦄ ⦃w : Urls⦄ ⦃m : Markup⦄ (describe : FetchError → Text) (refused : Text)
    (config : SourceConfig) (options : HtmlOptions) (policy : FetchPolicy) (collected_at : ℕ) where
  -- the record of an entry, once its page of details is read
  abbrev pub entry : Text → Json → Dict (Option Text) → Item
  entry url raw fields = collected (record {
    source = record { name = config.name; url = some url };
    fields = fields;
    raw = raw;
    collected_at = collected_at;
  })

  abbrev listing : m.Node → Members → Json
  listing node more =
      object (member (codes "listing_html") (text (take 2000 (m.str_of_node node))) more)

  abbrev raised : Failure → Text
  raised (source_error error) = error
  raised (crashed error) = error

  -- the details, of a page that was loaded or not; any error costs this record and no other
  abbrev detailed : m.Node → Text → Dict (Option Text) → Loaded Text → Item
  detailed node url fields (unusable f) = rejected (raised f)
  detailed node url fields (loaded body) = elim (m.soup options.parser body) [
    | none ↦ rejected refused
    | some detail ↦ elim (extract_details options.detail_mapping detail fields) [
      | none ↦ rejected refused
      | some all ↦ entry url (listing node (member (codes "detail_url") (text url) end)) all
    ]
  ]

  unfoldable pub to_record : m.Node → Text → Session → Item × Session
  to_record node url s = elim (extract_all config.mapping node) [
    | none ↦ (rejected refused, s)
    | some fields ↦ elim (detail_url options node url) [
      | none ↦ (rejected refused, s)
      | some none ↦ (entry url (listing node end) fields, s)
      | some (some target) ↦
          let (body, s') = load_text describe config.name policy target s in
          (detailed node target fields body, s')
    ]
  ]

  -- `max_items and emitted >= max_items`
  abbrev pub is_full : ℕ → Bool
  is_full emitted = elim options.max_items [
    | none ↦ false
    | some limit ↦ ltb 0 limit && leb limit emitted
  ]

  -- the entries of a page after so many: the items, whether the collection is full, and how many
  unfoldable pub entries : List m.Node → Text → ℕ → Session → (List Item × Bool × ℕ) × Session
  entries [] url emitted s = (([], false, emitted), s)
  entries (node ∷ nodes) url emitted s =
      let (item, s') = to_record node url s in
      let ((items, full, total), s'') = entries nodes url (suc emitted) s' in
      if is_full (suc emitted)
      then ((item ∷ [], true, suc emitted), s')
      else ((item ∷ items, full, total), s'')

  -- a page and its entries
  abbrev pub parsed : Loaded Text → Loaded (m.Node × List m.Node)
  parsed (unusable f) = unusable f
  parsed (loaded body) = elim (m.soup options.parser body) [
    | none ↦ unusable (crashed refused)
    | some page ↦ elim (m.select_all options.item_selector page) [
      | none ↦ unusable (crashed refused)
      | some nodes ↦ loaded (page, nodes)
    ]
  ]

  unfoldable pub pages : ℕ → Option (Option Text) → List Text → ℕ → Session → Collection × Session
  pages zero none seen emitted s = (only_failure (crashed refused), s)
  pages zero (some url) seen emitted s = (no_items, s)
  pages (suc k) none seen emitted s = (only_failure (crashed refused), s)
  pages (suc k) (some none) seen emitted s = (no_items, s)
  pages (suc k) (some (some url)) seen emitted s =
      if mem_text url seen
      then (no_items, s)
      else let (body, s') = load_text describe config.name policy url s in
        elim (parsed body) [
          | unusable f ↦ (only_failure f, s')
          | loaded (page, nodes) ↦
              let ((items, full, total), s'') = entries nodes url emitted s' in
              let (rest, s''') = pages k (next_url options page url) (url ∷ seen) total s'' in
              if full
              then (record { items = items; failure = none }, s'')
              else (record rest { items = items ++ rest.items }, s''')
        ]

  unfoldable pub collect : Session → Collection × Session
  collect s = pages options.max_pages (some (some options.url)) [] 0 s
