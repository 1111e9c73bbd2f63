-- ===== src/Telemetry.antt =====
-- `redact` of app/telemetry.py: what reaches the logs.
use lead_pipe.Prelude.{
  ◌≡◌, refl, Bool, true, false, not, ◌&&◌, none, some, List, [], ◌∷◌, map, inl, inr, Bool-cases,
  if◌then◌else◌,
}
use lead_pipe.Prelude.Unicode.{Unicode}
use lead_pipe.Prelude.Texts.{Text, codes, text_eq, text_eq_iff, mem_text}
use lead_pipe.Domain.{Dict, Json, null, text, get}

-- `SENSITIVE_KEYS`
abbrev pub sensitive_keys : List Text
sensitive_keys =
    codes "address"
    ∷ codes "api_key"
    ∷ codes "authorization"
    ∷ codes "contact_name"
    ∷ codes "email"
    ∷ codes "password"
    ∷ codes "phone"
    ∷ codes "secret"
    ∷ codes "token"
    ∷ codes "website"
    ∷ codes "x-api-key"
    ∷ []

-- `REDACTED`
abbrev pub redacted : Json
redacted = text (codes "[redacted]")

abbrev is_null : Json → Bool
is_null null = true
is_null _ = false

module _ ⦃u : Unicode⦄ where
  abbrev pub is_sensitive : Text → Bool
  is_sensitive key = mem_text (u.lower key) sensitive_keys

  -- the value that a key keeps
  abbrev pub kept : Text → Json → Json
  kept key value = if is_sensitive key && not (is_null value) then redacted else value

  -- each key's value in its place
  unfoldable pub redact : Dict Json → Dict Json
  redact events = map (λ (key, value). (key, kept key value)) events

  -- What can be read under a key in the logs is what the event has under it, but the mark `[redacted]`
  -- under a sensitive key that has a value; no key is lost and none is new.
  pub get-redact :
      (key : Text) (events : Dict Json)
      → get key (redact events)
        ≡ (elim (get key events) [ none ↦ none | some value ↦ some (kept key value) ])
  unfolding get redact
  get-redact key [] = refl
  get-redact key ((j, value) ∷ events) = elim (Bool-cases (text_eq j key)) [
    | inl e ↦ let same : j ≡ key = (text_eq_iff j key).0 e in rw (e, get) (rw same refl)
    | inr e ↦ rw (e, get) (get-redact key events)
  ]
