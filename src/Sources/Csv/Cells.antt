-- ===== src/Sources/Csv/Cells.antt =====
-- The fields of the records that app/sources/csv_source.py makes of rows.
use mathlib.Core.Path.{subst}
use lead_pipe.Prelude.{
  ℕ, ◌≡◌, true, Option, none, some, List, [], ◌∷◌, map, inl, inr, All, Bool-cases, Option-cases,
}
use lead_pipe.Prelude.Texts.{
  Text, codes, text_eq, truthy, or_none, or_none-some, is_space, strip_by,
}
use lead_pipe.Normalization.Cleaning.{strip-strip}
use lead_pipe.Domain.{Dict, put}
use lead_pipe.Libraries.{CsvRow, CsvTable}
use lead_pipe.Config.{SourceConfig}
use lead_pipe.Pipeline.Run.{Item, collected, rejected}
use lead_pipe.Sources.Api.{given}
use lead_pipe.Sources.Csv.Header.{lacks_column, collect-by_header}
use lead_pipe.Sources.Csv.{CsvOptions, clean, cell, fields_of, to_record, collect}

-- no value, or one that is not empty and has no white space at its ends
abbrev pub IsTrimmed : Option Text → Type 0
IsTrimmed none = Unit
IsTrimmed (some value) = (strip_by is_space value ≡ value) × (truthy value ≡ true)

clean-IsTrimmed : (value : Option Text) → IsTrimmed (clean value)
unfolding clean
clean-IsTrimmed none = tt
clean-IsTrimmed (some value) = elim (Option-cases (or_none (strip_by is_space value))) [
  | inl e ↦ rw (e, clean) tt
  | inr (t, e) ↦
      let (same, full) = or_none-some (strip_by is_space value) e in
      rw (e, clean) (subst (λ x. strip_by is_space x ≡ x) same (strip-strip value), full)
]

-- each field is trimmed
abbrev pub AllTrimmed : Dict (Option Text) → Type 0
AllTrimmed = All (λ (target, value). IsTrimmed value)

-- a record whose fields are trimmed, or no record
abbrev pub IsTidy : Item → Type 0
IsTidy (collected raw) = AllTrimmed raw.fields
IsTidy (rejected message) = Unit

mapped-trimmed :
    (row : CsvRow) (mapping : Dict Text)
    → AllTrimmed (map (λ (target, column). (target, clean (cell column row))) mapping)
mapped-trimmed row [] = tt
mapped-trimmed row ((target, column) ∷ mapping) =
    (clean-IsTrimmed (cell column row), mapped-trimmed row mapping)

pub put-trimmed :
    (key : Text) (value : Option Text) (fields : Dict (Option Text))
    → IsTrimmed value
    → AllTrimmed fields
    → AllTrimmed (put key value fields)
unfolding put
put-trimmed key value [] h k = (h, tt)
put-trimmed key value ((j, w) ∷ fields) h k = elim (Bool-cases (text_eq j key)) [
  | inl e ↦ rw e (h, k.1)
  | inr e ↦ rw e (k.0, put-trimmed key value fields h k.1)
]

fields_of-trimmed :
    (config : SourceConfig) (options : CsvOptions) (row : CsvRow)
    → AllTrimmed (fields_of config options row)
unfolding fields_of
fields_of-trimmed config options row = elim (Option-cases (given options.external_id_field)) [
  | inl e ↦ rw (e, fields_of) (mapped-trimmed row config.mapping)
  | inr (column, e) ↦
      rw (e, fields_of)
        (put-trimmed (codes "external_id") _ _ (clean-IsTrimmed (cell column row))
          (mapped-trimmed row config.mapping))
]

rows-IsTidy :
    (config : SourceConfig) (options : CsvOptions) (at_time : ℕ) (rows : List CsvRow)
    → All IsTidy (map (to_record config options at_time) rows)
unfolding to_record fields_of
rows-IsTidy config options at_time [] = tt
rows-IsTidy config options at_time (row ∷ rows) = elim (Bool-cases row.has_overflow) [
  | inl e ↦ rw e (tt, rows-IsTidy config options at_time rows)
  | inr e ↦ rw e (fields_of-trimmed config options row, rows-IsTidy config options at_time rows)
]

-- In every record that a file yields, each field has no value, or one that is not empty and has no white
-- space at its ends.
pub collect-IsTidy :
    (config : SourceConfig) (options : CsvOptions) (collected_at : ℕ) (file : Option CsvTable)
    → All IsTidy (collect config options collected_at file).items
unfolding collect
collect-IsTidy config options collected_at none = tt
collect-IsTidy config options collected_at (some file) =
    elim (Bool-cases (lacks_column config file)) [
      | inl h ↦ rw ((collect-by_header config options collected_at file).0 h).0 tt
      | inr h ↦
          rw ((collect-by_header config options collected_at file).1 h)
            (rows-IsTidy config options collected_at file.rows)
    ]
