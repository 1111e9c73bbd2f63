-- ===== src/Normalization/Url.antt =====
-- app/normalization/url.py, over the operations of `urllib.parse`
use lead_pipe.Prelude.{
  ℕ, Bool, true, false, not, ◌&&◌, ◌||◌, Option, none, some, List, [], ◌∷◌, ◌++◌, ◌==◌, leb, ltb,
  length, all, if◌then◌else◌,
}
use lead_pipe.Prelude.Unicode.{Unicode}
use lead_pipe.Prelude.Orders.{lex, text_order, sort_by}
use lead_pipe.Prelude.Decimal.{str}
use lead_pipe.Prelude.Tables.{select}
use lead_pipe.Prelude.Texts.{
  Text, codes, text_eq, mem_text, starts_with, remove_prefix, contains, rstrip_by, split_on, truthy,
}
use lead_pipe.Libraries.{Urls, SplitUrl}
use lead_pipe.Normalization.Cleaning.{clean_text}

abbrev pub alnum : ℕ → Bool
alnum c = (leb b'a' c && leb c b'z') || (leb b'0' c && leb c b'9')

-- `[a-z0-9-]*[a-z0-9]`
unfoldable pub label_end : Text → Bool
label_end [] = false
label_end (c ∷ []) = alnum c
label_end (c ∷ d ∷ s) = (alnum c || c == b'-') && label_end (d ∷ s)

-- `[a-z0-9]([a-z0-9-]*[a-z0-9])?`
unfoldable pub is_label : Text → Bool
is_label [] = false
is_label (c ∷ []) = alnum c
is_label (c ∷ d ∷ s) = alnum c && label_end (d ∷ s)

-- two labels or more, with dots between them
unfoldable pub is_hostname : Text → Bool
is_hostname s =
    let labels = split_on (λ c. c == b'.') s in ltb 1 (length labels) && all is_label labels

-- `$` also stands before a newline at the end
abbrev drop_newline : Text → Text
drop_newline [] = []
drop_newline (c ∷ []) = if c == 10 then [] else c ∷ []
drop_newline (c ∷ d ∷ s) = c ∷ drop_newline (d ∷ s)

-- `HOSTNAME.match(host)`
unfoldable pub hostname_match : Text → Bool
hostname_match s = is_hostname s || is_hostname (drop_newline s)

abbrev pub tracking_params : List Text
tracking_params =
    codes "utm_source"
    ∷ codes "utm_medium"
    ∷ codes "utm_campaign"
    ∷ codes "utm_term"
    ∷ codes "utm_content"
    ∷ codes "utm_id"
    ∷ codes "gclid"
    ∷ codes "fbclid"
    ∷ codes "mc_cid"
    ∷ codes "mc_eid"
    ∷ codes "igshid"
    ∷ []

-- `port != _DEFAULT_PORTS[scheme]`; the scheme of a candidate is one of the two
abbrev default_port : Text → ℕ
default_port scheme = if text_eq scheme (codes "http") then 80 else 443

module _ ⦃u : Unicode⦄ ⦃w : Urls⦄ where
  -- what is left to do when the parts of the address are known
  abbrev netloc_of : Text → Text → Option ℕ → Text
  netloc_of scheme host none = host
  netloc_of scheme host (some port) =
      if port == default_port scheme then host else host ++ (codes ":" ++ str port)

  unfoldable pub kept_params : Text → List (Text × Text)
  kept_params query =
      sort_by (lex text_order text_order) (λ p. p)
        (select (λ p. not (mem_text (u.lower p.0) tracking_params)) (w.parse_qsl true query))

  unfoldable pub rebuilt : SplitUrl → Text → Option ℕ → Text
  rebuilt parts host port =
      w.urlunsplit parts.scheme (netloc_of parts.scheme (remove_prefix (codes "www.") host) port)
        (rstrip_by (λ c. c == b'/') parts.path) (w.urlencode (kept_params parts.query)) []

  abbrev with_host : Text → SplitUrl → Option ℕ → Option Text → Text
  with_host text parts port none = text
  with_host text parts port (some host) =
      if truthy host && hostname_match host then rebuilt parts host port else text

  -- `text` is what is returned where an address cannot be read
  unfoldable pub from_candidate : Text → Text → Text
  from_candidate text candidate = elim (w.urlsplit candidate) [
    | none ↦ text
    | some parts ↦ elim parts.port [
      | none ↦ text
      | some port ↦ with_host text parts port parts.hostname
    ]
  ]

  unfoldable pub url_of : Text → Text
  url_of text =
      let lowered = u.lower text in
      if contains (codes "://") text
      then (if starts_with (codes "http://") lowered || starts_with (codes "https://") lowered
          then from_candidate text text
          else text)
      else if contains (codes ":") text
          && (starts_with (codes "mailto:") lowered || starts_with (codes "tel:") lowered)
      then text
      else from_candidate text (codes "https://" ++ text)

  unfoldable pub normalize_url : Option Text → Option Text
  normalize_url value = elim (clean_text value) [ none ↦ none | some t ↦ some (url_of t) ]

module _ ⦃w : Urls⦄ where
  abbrev domain_of_host : Option Text → Option Text
  domain_of_host none = none
  domain_of_host (some host) =
      if truthy host then some (remove_prefix (codes "www.") host) else none

  unfoldable pub extract_domain : Option Text → Option Text
  extract_domain none = none
  extract_domain (some url) = elim (w.urlsplit url) [
    | none ↦ none
    | some parts ↦ domain_of_host parts.hostname
  ]
