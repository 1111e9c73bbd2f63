-- ===== src/Exports.antt =====
-- app/exports: the leads of an export as the lines of a CSV file, or as the parts of a JSON array.
pub mod Written
use lead_pipe.Prelude.{
  ℕ, Bool, true, false, Option, none, some, List, [], ◌∷◌, ◌++◌, map, if◌then◌else◌,
}
use lead_pipe.Prelude.Unicode.{Unicode}
use lead_pipe.Prelude.Decimal.{str}
use lead_pipe.Prelude.Texts.{Text, codes, text_eq, join}
use lead_pipe.Domain.{
  Dict, get, Json, null, number, text, array, object, Items, nil, cons, Members, end, member,
  LeadFilter, ValidationStatus, valid, invalid, unknown,
}
use lead_pipe.Libraries.{Formats}
use lead_pipe.Db.{Db, Lead}
use lead_pipe.Db.Platform.{Platform}
use lead_pipe.Repositories.Leads.Pages.{LeadExport, exported, iter_export}

-- `COLUMNS`
abbrev pub columns : List Text
columns =
    codes "id"
    ∷ codes "company_name"
    ∷ codes "contact_name"
    ∷ codes "website"
    ∷ codes "email"
    ∷ codes "phone"
    ∷ codes "address"
    ∷ codes "city"
    ∷ codes "country"
    ∷ codes "validation_status"
    ∷ codes "sources"
    ∷ codes "first_seen_at"
    ∷ codes "last_seen_at"
    ∷ []

-- what a cell can hold: a number, a text or none, texts, or a time
pub data Value : Type 0 where
  int_value : ℕ → Value
  text_value : Option Text → Value
  list_value : List Text → Value
  time_value : ℕ → Value

abbrev pub status_value : ValidationStatus → Text
status_value valid = codes "valid"
status_value invalid = codes "invalid"
status_value unknown = codes "unknown"

-- `_record`
unfoldable pub record_of : LeadExport → Dict Value
record_of row =
    (codes "id", int_value row.lead.id)
    ∷ (codes "company_name", text_value row.lead.company_name)
    ∷ (codes "contact_name", text_value row.lead.contact_name)
    ∷ (codes "website", text_value row.lead.website)
    ∷ (codes "email", text_value row.lead.email)
    ∷ (codes "phone", text_value row.lead.phone)
    ∷ (codes "address", text_value row.lead.address)
    ∷ (codes "city", text_value row.lead.city)
    ∷ (codes "country", text_value row.lead.country)
    ∷ (codes "validation_status", text_value (some (status_value row.lead.validation_status)))
    ∷ (codes "sources", list_value row.sources)
    ∷ (codes "first_seen_at", time_value row.lead.first_seen_at)
    ∷ (codes "last_seen_at", time_value row.lead.last_seen_at)
    ∷ []

abbrev texts : List Text → Items
texts [] = nil
texts (t ∷ ts) = cons (text t) (texts ts)

-- `[f(record[column]) for column in columns]`; `none` is a `KeyError`
unfoldable pub cells_at : (Value → Text) → Dict Value → List Text → Option (List Text)
cells_at f d [] = some []
cells_at f d (column ∷ rest) = elim (get column d) [
  | none ↦ none
  | some v ↦ elim (cells_at f d rest) [ none ↦ none | some vs ↦ some (f v ∷ vs) ]
]

module _ ⦃f : Formats⦄ where
  -- `_cell`
  unfoldable pub cell : Value → Text
  cell (int_value n) = str n
  cell (text_value none) = []
  cell (text_value (some t)) = t
  cell (list_value ts) = join (codes ";") ts
  cell (time_value t) = f.isoformat t

  -- a value as `json.dumps` writes it, `_json_value` for a time
  unfoldable pub json_value : Value → Json
  json_value (int_value n) = number (str n)
  json_value (text_value none) = null
  json_value (text_value (some t)) = text t
  json_value (list_value ts) = array (texts ts)
  json_value (time_value t) = text (f.isoformat t)

  abbrev pub members : Dict Value → Members
  members [] = end
  members ((key, v) ∷ d) = member key (json_value v) (members d)

  -- the chunks of the rows, up to the `KeyError` that ends them, if one does
  unfoldable pub csv_rows : List LeadExport → List Text × Bool
  csv_rows [] = ([], true)
  csv_rows (row ∷ rows) =
      let (rest, whole) = csv_rows rows in
      elim (cells_at cell (record_of row) columns) [
        | none ↦ ([], false)
        | some cells ↦ (f.writerow cells ∷ rest, whole)
      ]

  unfoldable pub write_csv : List LeadExport → List Text × Bool
  write_csv rows = let (chunks, whole) = csv_rows rows in (f.writerow columns ∷ chunks, whole)

  unfoldable pub json_rows : Text → List LeadExport → List Text
  json_rows separator [] = codes "\n]\n" ∷ []
  json_rows separator (row ∷ rows) =
      (separator ++ (codes "  " ++ f.dumps (object (members (record_of row)))))
      ∷ json_rows (codes ",\n") rows

  unfoldable pub write_json : List LeadExport → List Text
  write_json rows = codes "[\n" ∷ json_rows [] rows

  -- the chunks of an export, with so many pages at most; `none` is the `ValueError` of an unknown format
  unfoldable pub export_leads :
      ⦃u : Unicode⦄ ⦃g : Platform⦄ → ℕ → Text → LeadFilter → ℕ → Db → Option (List Text × Bool)
  export_leads pages format filters batch_size db =
      let rows = map (exported db) (iter_export pages filters batch_size db) in
      if text_eq format (codes "csv")
      then some (write_csv rows)
      else if text_eq format (codes "json")
      then some (write_json rows, true)
      else none
