-- ===== src/Exports/Written.antt =====
-- What app/exports writes, as its readers take it: a CSV sheet by the names of its columns, and the
-- objects of a JSON array.
use mathlib.Core.List.{append_assoc, zip}
use lead_pipe.Prelude.{
  ℕ, ◌<◌, ◌≡◌, refl, ap, Bool, true, Option, none, some, List, [], ◌∷◌, ◌++◌, map, length, All,
}
use lead_pipe.Prelude.Unicode.{Unicode}
use lead_pipe.Prelude.Texts.{Text, codes, text_eq, join}
use lead_pipe.Prelude.Decimal.{str}
use lead_pipe.Prelude.Tables.{select}
use lead_pipe.Prelude.Keyset.{Rising}
use lead_pipe.Domain.{get, object, Dict, LeadFilter, ValidationStatus}
use lead_pipe.Libraries.{Formats}
use lead_pipe.Db.{Db, Lead}
use lead_pipe.Db.Platform.{Platform}
use lead_pipe.Repositories.Leads.Pages.{
  LeadExport, exported, source_names, conditions, iter_export-select,
}
use lead_pipe.Exports.{
  columns, text_value, status_value, record_of, cell, cells_at, csv_rows, write_csv, json_rows,
  write_json, members, export_leads,
}

-- `"".join(chunks)`
abbrev pub concat : List Text → Text
concat [] = []
concat (t ∷ ts) = t ++ concat ts

module _ ⦃f : Formats⦄ where
  -- the cells of a row, in the order of the columns
  abbrev cells : LeadExport → List Text
  cells row = map (λ (key, v). cell v) (record_of row)

  row-cells : (row : LeadExport) → cells_at cell (record_of row) columns ≡ some (cells row)
  unfolding get record_of text_eq cells_at
  row-cells row = refl

  csv_rows-map :
      (rows : List LeadExport) → csv_rows rows ≡ (map (λ row. f.writerow (cells row)) rows, true)
  unfolding csv_rows
  csv_rows-map [] = refl
  csv_rows-map (row ∷ rows) = rw (csv_rows, row-cells row, csv_rows-map rows) refl

  abbrev pub object_of : LeadExport → Text
  object_of row = codes "  " ++ f.dumps (object (members (record_of row)))

  json_rows-continued :
      (row : LeadExport) (rows : List LeadExport)
      → object_of row ++ concat (json_rows (codes ",\n") rows)
        ≡ join (codes ",\n") (map object_of (row ∷ rows)) ++ codes "\n]\n"
  unfolding json_rows join
  json_rows-continued row [] = refl
  json_rows-continued row (next ∷ rows) =
      rw (append_assoc (object_of row))
        (ap (λ t. object_of row ++ (codes ",\n" ++ t)) (json_rows-continued next rows))

  -- The chunks of the JSON export, put together, are the objects of the rows, joined by commas and line
  -- breaks, in brackets: also where there is no row, or only one.
  pub write_json-join :
      (rows : List LeadExport)
      → concat (write_json rows)
        ≡ codes "[\n" ++ (join (codes ",\n") (map object_of rows) ++ codes "\n]\n")
  unfolding write_json json_rows join
  write_json-join [] = refl
  write_json-join (row ∷ rows) = ap (λ t. codes "[\n" ++ t) (json_rows-continued row rows)

  -- a text that may be missing, as a sheet shows it
  abbrev or_empty : Option Text → Text
  or_empty none = []
  or_empty (some t) = t

  abbrev grade : ValidationStatus → Text
  grade ValidationStatus.valid = codes "valid"
  grade ValidationStatus.invalid = codes "invalid"
  grade ValidationStatus.unknown = codes "unknown"

  cell-text : (t : Option Text) → cell (text_value t) ≡ or_empty t
  unfolding cell
  cell-text none = refl
  cell-text (some t) = refl

  cell-grade : (s : ValidationStatus) → cell (text_value (some (status_value s))) ≡ grade s
  unfolding cell
  cell-grade ValidationStatus.valid = refl
  cell-grade ValidationStatus.invalid = refl
  cell-grade ValidationStatus.unknown = refl

  -- a lead as a reader of the sheet expects it, by the names of the columns
  abbrev pub sheet_row : ⦃g : Platform⦄ → Db → Lead → Dict Text
  sheet_row db l =
      (codes "id", str l.id)
      ∷ (codes "company_name", or_empty l.company_name)
      ∷ (codes "contact_name", or_empty l.contact_name)
      ∷ (codes "website", or_empty l.website)
      ∷ (codes "email", or_empty l.email)
      ∷ (codes "phone", or_empty l.phone)
      ∷ (codes "address", or_empty l.address)
      ∷ (codes "city", or_empty l.city)
      ∷ (codes "country", or_empty l.country)
      ∷ (codes "validation_status", grade l.validation_status)
      ∷ (codes "sources", join (codes ";") (source_names db l))
      ∷ (codes "first_seen_at", f.isoformat l.first_seen_at)
      ∷ (codes "last_seen_at", f.isoformat l.last_seen_at)
      ∷ []

  cells-sheet_row :
      ⦃g : Platform⦄ (db : Db) (l : Lead) → zip columns (cells (exported db l)) ≡ sheet_row db l
  unfolding record_of cell zip
  cells-sheet_row db l =
      rw
        (
          cell,
          cell-text l.company_name,
          cell-text l.contact_name,
          cell-text l.website,
          cell-text l.email,
          cell-text l.phone,
          cell-text l.address,
          cell-text l.city,
          cell-text l.country,
          cell-grade l.validation_status,
        )
        refl

-- `csv.DictReader` of the chunks, each of which `readrow` splits into its cells
module _ (readrow : Text → List Text) where
  abbrev read_rows : List Text → List (Dict Text)
  read_rows [] = []
  read_rows (header ∷ lines) = map (λ line. zip (readrow header) (readrow line)) lines

  abbrev pub read_sheet : Option (List Text × Bool) → Option (List (Dict Text) × Bool)
  read_sheet none = none
  read_sheet (some (chunks, whole)) = some (read_rows chunks, whole)

module _ ⦃f : Formats⦄ ⦃u : Unicode⦄ ⦃g : Platform⦄ (readrow : Text → List Text) where
  read_lines :
      ((cells : List Text) → readrow (f.writerow cells) ≡ cells)
      → (db : Db) (ls : List Lead)
      → map
          (λ line. zip columns (readrow line))
          (map (λ row. f.writerow (cells row)) (map (exported db) ls))
        ≡ map (sheet_row db) ls
  read_lines law db [] = refl
  read_lines law db (l ∷ ls) =
      rw (law (cells (exported db l)), read_lines law db ls, cells-sheet_row db l) refl

  -- Where a reader splits each line that `csv.writer` writes into its cells again, with batches of one
  -- lead at least, ids that rise from one on, and more pages allowed than there are leads: the CSV
  -- export, read back by the names in its first line, is whole and gives the leads that the filter asks
  -- for, in the order of the ids, each with its own fields, the names of its sources, and an empty text
  -- for what is missing.
  pub export_leads-read_sheet :
      ((cells : List Text) → readrow (f.writerow cells) ≡ cells)
      → (pages : ℕ) (filters : LeadFilter) (batch_size : ℕ) (db : Db) → 0 < batch_size
      → All (λ l. 0 < l.id) db.leads.rows
      → Rising (λ l. l.id) db.leads.rows
      → length db.leads.rows < pages
      → read_sheet readrow (export_leads pages (codes "csv") filters batch_size db)
        ≡ some (map (sheet_row db) (select (conditions filters db) db.leads.rows), true)
  unfolding export_leads write_csv text_eq
  export_leads-read_sheet law pages filters batch_size db positive ids rising enough =
      let chosen = select (conditions filters db) db.leads.rows in
      rw
        (
          iter_export-select pages filters batch_size db positive ids rising enough,
          csv_rows-map (map (exported db) chosen),
          law columns,
        )
        (ap (λ rows. some (rows, true)) (read_lines law db chosen))
