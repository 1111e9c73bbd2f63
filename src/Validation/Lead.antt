-- ===== src/Validation/Lead.antt =====
-- app/validation/lead.py: the status of a lead from those of its fields.
use lead_pipe.Prelude.{
  ◌≡◌, Bool, false, not, ◌&&◌, ◌||◌, Option, none, some, List, [], ◌∷◌, arith, any, all,
  if◌then◌else◌,
}
use lead_pipe.Prelude.Tables.{select}
use lead_pipe.Prelude.Texts.{Text, codes, text_eq, mem_text}
use lead_pipe.Domain.{
  Dict, get, NormalizedLead, FieldValidation, LeadValidation, ValidationStatus, is_invalid_status,
  is_unknown_status,
}
use lead_pipe.Libraries.{Phones, Emails, Urls}
use lead_pipe.Validation.Rules.{
  validate_company_name, validate_email_field, validate_url_field, validate_phone_field,
}

abbrev pub contact_fields : List Text
contact_fields = codes "email" ∷ codes "website" ∷ codes "phone" ∷ []

abbrev pub metadata_fields : List Text
metadata_fields = codes "source_url" ∷ []

abbrev pub is_invalid : FieldValidation → Bool
is_invalid f = is_invalid_status f.status

-- `graded[name].status is UNKNOWN`; the names are there
abbrev unknown_at : Dict FieldValidation → Text → Bool
unknown_at graded name = elim (get name graded) [
  | none ↦ false
  | some f ↦ is_unknown_status f.status
]

-- `_rollup`
unfoldable pub rollup : Dict FieldValidation → ValidationStatus
rollup fields =
    let graded = select (λ kv. not (mem_text kv.0 metadata_fields)) fields in
    if any (λ kv. is_invalid kv.1) graded
    then ValidationStatus.invalid
    else if all (unknown_at graded) contact_fields
    then ValidationStatus.unknown
    else ValidationStatus.valid

unfoldable pub invalid_fields : LeadValidation → Dict FieldValidation
invalid_fields v = select (λ kv. is_invalid kv.1) v.fields

abbrev pub field_table :
    FieldValidation
    → FieldValidation
    → FieldValidation
    → FieldValidation
    → FieldValidation
    → Dict FieldValidation
field_table name email website phone url =
    (codes "company_name", name)
    ∷ (codes "email", email)
    ∷ (codes "website", website)
    ∷ (codes "phone", phone)
    ∷ (codes "source_url", url)
    ∷ []

abbrev graded_lead : Dict FieldValidation → LeadValidation
graded_lead fields = record { status = rollup fields; fields = fields }

-- `none` where `urlsplit` raises
unfoldable pub validate_lead :
    ⦃p : Phones⦄ → ⦃e : Emails⦄ → ⦃w : Urls⦄ → NormalizedLead → Option LeadValidation
validate_lead lead = elim (validate_url_field lead.website) [
  | none ↦ none
  | some website ↦ elim (validate_url_field lead.source.url) [
    | none ↦ none
    | some url ↦ some (
        graded_lead (
          field_table (validate_company_name lead.company_name) (validate_email_field lead.email)
            website (validate_phone_field lead.phone) url))
  ]
]

-- A company without a name or with a broken contact is invalid; of the rest, one without any
-- contact is unknown; all others are valid. The page's address has no part in it.
pub rollup_lem :
    (name email website phone url : FieldValidation)
    → rollup (field_table name email website phone url) ≡ (
        if is_invalid name || (is_invalid email || (is_invalid website || is_invalid phone))
        then ValidationStatus.invalid
        else if is_unknown_status email.status
            && (is_unknown_status website.status && is_unknown_status phone.status)
        then ValidationStatus.unknown
        else ValidationStatus.valid)
unfolding rollup get select mem_text text_eq
rollup_lem name email website phone url = ground arith
