-- ===== src/Tests/Query.antt =====
-- Functions for urls that keep the laws which the page numbers rest on: a query is the pairs, each key
-- after a 0 and each value after a 1, and the other characters are moved by 2.
use lead_pipe.Prelude.{
  ℕ, zero, suc, ◌+◌, ◌-◌, ◌≡◌, refl, ap, Bool, true, false, none, some, List, [], ◌∷◌, arith, All,
  inl, ◌==◌, if◌then◌else◌,
}
use lead_pipe.Prelude.Ints.{ℤ, pos, negsuc, str_ℤ}
use lead_pipe.Prelude.Decimal.{str, decimal, value, value-str, str-starts, starts_with_digit}
use lead_pipe.Prelude.Texts.{Text, codes, truthy, text_eq}
use lead_pipe.Prelude.Tables.{select}
use lead_pipe.Libraries.{Urls, Values, SplitUrl}
use lead_pipe.Sources.Api.{with_param, param_value}
use lead_pipe.Sources.Api.Paging.{IsFilled, param_value-with_param}

abbrev shifted : Text → Text → Text
shifted [] rest = rest
shifted (c ∷ s) rest = (c + 2) ∷ shifted s rest

abbrev encoded : List (Text × Text) → Text
encoded [] = []
encoded ((key, value) ∷ pairs) = 0 ∷ shifted key (1 ∷ shifted value (encoded pairs))

-- the characters before the next mark, the value, and the pairs
abbrev State : Type 0
State = Text × Text × List (Text × Text)

abbrev read_one : ℕ → State → State
read_one c (chars, value, pairs) =
    if c == 0
    then ([], [], (chars, value) ∷ pairs)
    else if c == 1
    then ([], chars, pairs)
    else ((c - 2) ∷ chars, value, pairs)

abbrev decoded : Text → State
decoded [] = ([], [], [])
decoded (c ∷ s) = read_one c (decoded s)

decoded-shifted :
    (s rest v : Text) (pairs : List (Text × Text))
    → decoded rest ≡ ([], v, pairs)
    → decoded (shifted s rest) ≡ (s, v, pairs)
decoded-shifted [] rest v pairs h = h
decoded-shifted (c ∷ s) rest v pairs h = rw (decoded-shifted s rest v pairs h) (ground arith)

decoded-encoded : (pairs : List (Text × Text)) → decoded (encoded pairs) ≡ ([], [], pairs)
decoded-encoded [] = refl
decoded-encoded ((k, x) ∷ pairs) =
    rw
      (decoded-shifted k (1 ∷ shifted x (encoded pairs)) x pairs
        (rw (decoded-shifted x (encoded pairs) [] pairs (decoded-encoded pairs)) refl))
      refl

abbrev has_value : Text × Text → Bool
has_value (key, value) = truthy value

IsFilled-select : (pairs : List (Text × Text)) → All IsFilled (select has_value pairs)
unfolding select
IsFilled-select [] = tt
IsFilled-select ((k, []) ∷ pairs) = IsFilled-select pairs
IsFilled-select ((k, c ∷ x) ∷ pairs) = (refl, IsFilled-select pairs)

select-filled : (pairs : List (Text × Text)) → All IsFilled pairs → select has_value pairs ≡ pairs
unfolding select
select-filled [] h = refl
select-filled ((k, x) ∷ pairs) h = rw (h.0, select-filled pairs h.1) refl

-- a url is its query
abbrev split : Text → SplitUrl
split url = record {
  scheme = codes "https";
  netloc = codes "acme.fi";
  path = [];
  query = url;
  fragment = [];
  hostname = some (codes "acme.fi");
  port = some none;
}

instance abbrev query_urls : Urls
query_urls = record {
  urlsplit = λ url. some (split url);
  urlunsplit = λ scheme netloc path query fragment. query;
  urljoin = λ base url. some url;
  parse_qsl = λ keep_blank query. select has_value (decoded query).2;
  urlencode = encoded;
}

abbrev negated : ℕ → ℤ
negated zero = pos zero
negated (suc n) = negsuc n

abbrev int_of : Text → ℤ
int_of [] = pos 0
int_of (c ∷ s) = if c == 45 then negated (value 0 s) else pos (value 0 (c ∷ s))

int_of_digits : (s : Text) → starts_with_digit s ≡ true → int_of s ≡ pos (value 0 s)
int_of_digits [] h = cc
int_of_digits (c ∷ s) h = let e : (c == 45) ≡ false = ground arith in rw e refl

int_of-str : (n : ℤ) → int_of (str_ℤ n) ≡ n
unfolding str_ℤ
int_of-str (pos n) = rw (int_of_digits (str n) (str-starts n), value-str n) refl
int_of-str (negsuc n) = rw (value-str (suc n)) refl

instance abbrev query_values : Values
query_values = record {
  loads = λ body. inl (codes "no JSON");
  str_of = λ value. [];
  is_true = λ value. true;
  int_of = λ s. some (int_of s);
}

encoded-again :
    (url : Text) (parts : SplitUrl) (pairs : List (Text × Text))
    → some (split url) ≡ some parts
    → (again : SplitUrl) × (query_urls.urlsplit (
          query_urls.urlunsplit parts.scheme parts.netloc parts.path (encoded pairs) parts.fragment)
        ≡ some again)
      × (again.query ≡ encoded pairs)
encoded-again url parts pairs h = (split (encoded pairs), refl, refl)

parsed-encoded :
    (pairs : List (Text × Text))
    → All IsFilled pairs
    → select has_value (decoded (encoded pairs)).2 ≡ pairs
parsed-encoded pairs h = rw (decoded-encoded pairs) (select-filled pairs h)

-- a page number that is there already is replaced
abbrev old_url : Text
old_url = encoded ((codes "page", codes "7") ∷ (codes "q", codes "x") ∷ [])

abbrev new_url : Text
new_url = encoded ((codes "q", codes "x") ∷ (codes "page", codes "12") ∷ [])

param_value-with_param_example : param_value new_url (codes "page") (pos 1) ≡ some (pos 12)
unfolding with_param str_ℤ str decimal select text_eq
param_value-with_param_example =
    param_value-with_param encoded-again parsed-encoded (λ q. IsFilled-select (decoded q).2)
      (λ n. ap some (int_of-str n)) old_url (codes "page") new_url (pos 12) (pos 1) refl
