-- ===== src/Validation/Rules.antt =====
-- app/validation/rules.py and the constants of app/validation/models.py
use lead_pipe.Prelude.{Bool, false, ◌&&◌, ◌||◌, Option, none, some, if◌then◌else◌}
use lead_pipe.Prelude.Texts.{Text, codes, text_eq, truthy}
use lead_pipe.Domain.{FieldValidation, ValidationStatus}
use lead_pipe.Libraries.{Phones, Emails, Urls, SplitUrl}
use lead_pipe.Normalization.Url.{hostname_match}

abbrev pub valid_field : FieldValidation
valid_field = record { status = ValidationStatus.valid; reason = none }

abbrev pub unknown_field : FieldValidation
unknown_field = record { status = ValidationStatus.unknown; reason = some (codes "missing") }

abbrev pub invalid_field : Text → FieldValidation
invalid_field reason = record { status = ValidationStatus.invalid; reason = some reason }

unfoldable pub validate_company_name : Option Text → FieldValidation
validate_company_name none = invalid_field (codes "missing")
validate_company_name (some name) = valid_field

unfoldable pub validate_email_field : ⦃e : Emails⦄ → Option Text → FieldValidation
validate_email_field none = unknown_field
validate_email_field ⦃e⦄ (some value) =
    if e.validate_email value then valid_field else invalid_field (codes "syntax")

abbrev web_scheme : Text → Bool
web_scheme s = text_eq s (codes "http") || text_eq s (codes "https")

abbrev host_ok : Option Text → Bool
host_ok none = false
host_ok (some host) = truthy host && hostname_match host

unfoldable pub validate_parts : SplitUrl → FieldValidation
validate_parts parts =
    if web_scheme parts.scheme
    then (if host_ok parts.hostname then valid_field else invalid_field (codes "syntax"))
    else invalid_field (codes "scheme")

-- the outer `none` is the `ValueError` of `urlsplit`, which the program does not catch here
unfoldable pub validate_url_field : ⦃w : Urls⦄ → Option Text → Option FieldValidation
validate_url_field none = some unknown_field
validate_url_field ⦃w⦄ (some value) = elim (w.urlsplit value) [
  | none ↦ none
  | some parts ↦ some (validate_parts parts)
]

unfoldable pub validate_phone_field : ⦃p : Phones⦄ → Option Text → FieldValidation
validate_phone_field none = unknown_field
validate_phone_field ⦃p⦄ (some value) = elim (p.parse value none) [
  | none ↦ invalid_field (codes "syntax")
  | some n ↦ if p.is_valid_number n then valid_field else invalid_field (codes "syntax")
]
