-- ===== src/Normalization/Fields.antt =====
-- app/normalization/email.py, phone.py and location.py
use lead_pipe.Prelude.{◌&&◌, ◌||◌, Option, none, some, [], ◌∷◌, ◌==◌, length, if◌then◌else◌}
use lead_pipe.Prelude.Unicode.{Unicode}
use lead_pipe.Prelude.Texts.{Text, codes, is_space, strip_by, rstrip_by, remove_prefix, or_none}
use lead_pipe.Domain.{Dict, get}
use lead_pipe.Libraries.{Phones}
use lead_pipe.Normalization.Cleaning.{clean_text}

module _ ⦃u : Unicode⦄ where
  unfoldable pub bare_email : Text → Text
  bare_email text = u.lower (
      strip_by is_space (
        strip_by (λ c. c == b'<' || c == b'>')
          (strip_by is_space (remove_prefix (codes "mailto:") text))))

  unfoldable pub normalize_email : Option Text → Option Text
  normalize_email value = elim (clean_text value) [ none ↦ none | some t ↦ or_none (bare_email t) ]

module _ ⦃p : Phones⦄ where
  -- a number that is not parsed, or not valid, stays as it was written
  unfoldable pub normalize_phone : Option Text → Option Text → Option Text
  normalize_phone value region = elim (clean_text value) [
    | none ↦ none
    | some t ↦ elim (p.parse t region) [
      | none ↦ some t
      | some n ↦ if p.is_valid_number n then some (p.format_e164 n) else some t
    ]
  ]

abbrev pub country_aliases : Dict Text
country_aliases =
    (codes "finland", codes "FI")
    ∷ (codes "suomi", codes "FI")
    ∷ (codes "sweden", codes "SE")
    ∷ (codes "sverige", codes "SE")
    ∷ (codes "norway", codes "NO")
    ∷ (codes "denmark", codes "DK")
    ∷ (codes "estonia", codes "EE")
    ∷ (codes "germany", codes "DE")
    ∷ (codes "deutschland", codes "DE")
    ∷ (codes "netherlands", codes "NL")
    ∷ (codes "the netherlands", codes "NL")
    ∷ (codes "france", codes "FR")
    ∷ (codes "spain", codes "ES")
    ∷ (codes "italy", codes "IT")
    ∷ (codes "poland", codes "PL")
    ∷ (codes "ireland", codes "IE")
    ∷ (codes "united kingdom", codes "GB")
    ∷ (codes "great britain", codes "GB")
    ∷ (codes "uk", codes "GB")
    ∷ (codes "united states", codes "US")
    ∷ (codes "united states of america", codes "US")
    ∷ (codes "usa", codes "US")
    ∷ []

module _ ⦃u : Unicode⦄ where
  unfoldable pub country_of : Text → Text
  country_of text = elim (get (rstrip_by (λ c. c == b'.') (u.casefold text)) country_aliases) [
    | some alias ↦ alias
    | none ↦ if length text == 2 && u.is_alpha text then u.upper text else text
  ]

  unfoldable pub normalize_country : Option Text → Option Text
  normalize_country value = elim (clean_text value) [ none ↦ none | some t ↦ some (country_of t) ]

  unfoldable pub city_of : Text → Text
  city_of text = if u.is_upper text || u.is_lower text then u.title text else text

  unfoldable pub normalize_city : Option Text → Option Text
  normalize_city value = elim (clean_text value) [ none ↦ none | some t ↦ some (city_of t) ]
