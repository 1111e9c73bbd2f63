-- ===== src/Domain.antt =====
-- app/domain/models.py, app/domain/filters.py, app/validation/models.py: the values that the stages
-- of the pipeline hand to one another. A `datetime` is a number of microseconds; a mapping is the
-- list of its items in the order of insertion; a payload is `Json`, a number in it what `str` writes.
use lead_pipe.Prelude.{ℕ, Bool, true, false, Option, none, some, List, [], ◌∷◌, if◌then◌else◌}
use lead_pipe.Prelude.Texts.{Text, codes, text_eq}

mutual
  pub data Json : Type 0 where
    null : Json
    boolean : Bool → Json
    number : Text → Json
    text : Text → Json
    array : Items → Json
    object : Members → Json

  pub data Items : Type 0 where
    nil : Items
    cons : Json → Items → Items

  pub data Members : Type 0 where
    end : Members
    member : Text → Json → Members → Members

abbrev pub Dict {ℓ} : Type ℓ → Type ℓ
Dict V = List (Text × V)

module _ {ℓ} {V : Type ℓ} where
  -- `d.get(key)`
  unfoldable pub get : Text → Dict V → Option V
  get k [] = none
  get k ((j, v) ∷ d) = let rest = get k d in if text_eq j k then some v else rest

  -- `d[key] = value`
  unfoldable pub put : Text → V → Dict V → Dict V
  put k v [] = (k, v) ∷ []
  put k v ((j, w) ∷ d) = let rest = put k v d in if text_eq j k then (j, v) ∷ d else (j, w) ∷ rest

  -- `d.update(other)`
  unfoldable pub put_all : Dict V → Dict V → Dict V
  unfolding put
  put_all [] d = d
  put_all ((k, v) ∷ items) d = put_all items (put k v d)

abbrev pub lead_fields : List Text
lead_fields =
    codes "company_name"
    ∷ codes "contact_name"
    ∷ codes "website"
    ∷ codes "email"
    ∷ codes "phone"
    ∷ codes "address"
    ∷ codes "city"
    ∷ codes "country"
    ∷ []

pub record SourceRef : Type 0 where
  pub name : Text
  pub url : Option Text

pub record RawRecord : Type 0 where
  pub source : SourceRef
  pub fields : Dict (Option Text)
  pub raw : Json
  pub collected_at : ℕ

pub record NormalizedLead : Type 0 where
  pub source : SourceRef
  pub collected_at : ℕ
  pub company_name : Option Text
  pub contact_name : Option Text
  pub website : Option Text
  pub website_domain : Option Text
  pub email : Option Text
  pub phone : Option Text
  pub address : Option Text
  pub city : Option Text
  pub country : Option Text
  pub extra : Dict (Option Text)

pub data ValidationStatus : Type 0 where
  valid invalid unknown : ValidationStatus

abbrev pub is_invalid_status : ValidationStatus → Bool
is_invalid_status invalid = true
is_invalid_status _ = false

abbrev pub is_unknown_status : ValidationStatus → Bool
is_unknown_status unknown = true
is_unknown_status _ = false

pub record FieldValidation : Type 0 where
  pub status : ValidationStatus
  pub reason : Option Text

pub record LeadValidation : Type 0 where
  pub status : ValidationStatus
  pub fields : Dict FieldValidation

pub record LeadFilter : Type 0 where
  pub source : Option Text
  pub country : Option Text
  pub city : Option Text
  pub validation_status : Option ValidationStatus
  pub created_from : Option ℕ
  pub created_to : Option ℕ
