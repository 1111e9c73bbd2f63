-- ===== src/Deduplication/Fingerprint.antt =====
-- app/deduplication/fingerprint.py
pub mod Sets
use lead_pipe.Prelude.{
  ℕ, zero, suc, ◌+◌, ◌≡◌, refl, Bool, true, false, not, ◌&&◌, ◌||◌, Option, none, some, List, [],
  ◌∷◌, ◌++◌, map, arith, ◌==◌, leb, length, is_some, if◌then◌else◌,
}
use lead_pipe.Prelude.Unicode.{Unicode}
use lead_pipe.Prelude.Ratios.{Ratio, ratio}
use lead_pipe.Prelude.Tables.{select}
use lead_pipe.Prelude.Texts.{
  Text, codes, text_eq, mem_text, contains, starts_with, split_on, join, truthy, or_none,
}
use lead_pipe.Domain.{get, NormalizedLead}
use lead_pipe.Normalization.Url.{alnum}

abbrev pub legal_suffixes : List Text
legal_suffixes = map codes (
    "oy" ∷ "oyj" ∷ "ab" ∷ "ky" ∷ "tmi" ∷ "as" ∷ "asa" ∷ "aps" ∷ "ou" ∷ "sia" ∷ "uab" ∷ "ltd"
    ∷ "limited" ∷ "plc" ∷ "llp" ∷ "inc" ∷ "llc" ∷ "corp" ∷ "corporation" ∷ "company" ∷ "co" ∷ "gmbh"
    ∷ "ag" ∷ "kg" ∷ "bv" ∷ "nv" ∷ "sa" ∷ "sas" ∷ "sarl" ∷ "srl" ∷ "spa" ∷ "sl" ∷ [])

-- `_NON_ALNUM.split(s)` without its empty parts
unfoldable pub alnum_words : Text → List Text
alnum_words s = select truthy (split_on (λ c. not (alnum c)) s)

abbrev push_unless : (Text → Bool) → Text → List Text → List Text
push_unless p w [] = if p w then [] else w ∷ []
push_unless p w (v ∷ ws) = w ∷ v ∷ ws

-- `while tokens and p(tokens[-1]): tokens.pop()`
unfoldable pub pop_while : (Text → Bool) → List Text → List Text
pop_while p [] = []
pop_while p (w ∷ ws) = push_unless p w (pop_while p ws)

-- `padded[i : i + 3] for i in range(len(padded) - 2)`
unfoldable pub windows : Text → List Text
windows (a ∷ b ∷ c ∷ s) = (a ∷ b ∷ c ∷ []) ∷ windows (b ∷ c ∷ s)
windows _ = []

-- a set of texts is the list of its elements, each once
unfoldable pub set_add : Text → List Text → List Text
set_add g set = if mem_text g set then set else g ∷ set

unfoldable pub set_update : List Text → List Text → List Text
set_update [] set = set
set_update (g ∷ gs) set = set_update gs (set_add g set)

abbrev padded : Text → Text
padded word = 32 ∷ 32 ∷ (word ++ 32 ∷ [])

unfoldable pub grams_of : List Text → List Text → List Text
grams_of [] set = set
grams_of (word ∷ words) set = grams_of words (set_update (windows (padded word)) set)

unfoldable pub intersection : List Text → List Text → List Text
intersection a b = select (λ g. mem_text g b) a

unfoldable pub union : List Text → List Text → List Text
union a b = a ++ select (λ g. not (mem_text g a)) b

unfoldable pub jaccard : List Text → List Text → Ratio
jaccard [] b = record { num = 0; den_pred = 0 }
jaccard (g ∷ a) [] = record { num = 0; den_pred = 0 }
jaccard (g ∷ a) (h ∷ b) =
    ratio (length (intersection (g ∷ a) (h ∷ b))) (length (union (g ∷ a) (h ∷ b)))

pub record Fingerprints : Type 0 where
  pub email : Option Text
  pub domain : Option Text
  pub phone : Option Text
  pub name_slug : Option Text
  pub location : Option Text
  pub external_id : Option Text

-- `value if value and p(value) else None`
abbrev pub keep_if : (Text → Bool) → Option Text → Option Text
keep_if p none = none
keep_if p (some v) = if truthy v && p v then some v else none

-- `[part for part in parts if part]`
abbrev pub present : List (Option Text) → List Text
present [] = []
present (none ∷ parts) = present parts
present (some v ∷ parts) = let rest = present parts in if truthy v then v ∷ rest else rest

module _ ⦃u : Unicode⦄ where
  unfoldable pub company_slug : Option Text → Option Text
  company_slug none = none
  company_slug (some value) = or_none (
      join (codes " ")
        (pop_while (λ w. mem_text w legal_suffixes) (alnum_words (u.casefold value))))

  unfoldable pub trigrams : Text → List Text
  trigrams value = grams_of (alnum_words (u.casefold value)) []

  unfoldable pub similarity : Text → Text → Ratio
  similarity left right = jaccard (trigrams left) (trigrams right)

  abbrev joined : List Text → Option Text
  joined [] = none
  joined (p ∷ parts) = some (join (codes "|") (map u.casefold (p ∷ parts)))

  -- also `_location_key` of app/repositories/leads.py
  unfoldable pub location_of : Option Text → Option Text → Option Text
  location_of city country = joined (present (city ∷ country ∷ []))

  unfoldable pub fingerprints : NormalizedLead → Fingerprints
  fingerprints lead = record {
    email = keep_if (contains (codes "@")) lead.email;
    domain = lead.website_domain;
    phone = keep_if (starts_with (codes "+")) lead.phone;
    name_slug = company_slug lead.company_name;
    location = location_of lead.city lead.country;
    external_id = elim (get (codes "external_id") lead.extra) [ none ↦ none | some id ↦ id ];
  }
