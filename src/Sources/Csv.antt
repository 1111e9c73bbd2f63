-- ===== src/Sources/Csv.antt =====
-- app/sources/csv_source.py: the rows of a file. The file is an argument, as `csv.DictReader` reads it.
pub mod Header
pub mod Cells
pub mod Rows
use lead_pipe.Prelude.{
  ℕ, Bool, true, false, not, Option, none, some, List, [], ◌∷◌, ◌++◌, map, if◌then◌else◌,
}
use lead_pipe.Prelude.Texts.{Text, codes, or_none, is_space, strip_by, mem_text, join}
use lead_pipe.Prelude.Orders.{sort_by, text_order}
use lead_pipe.Prelude.Tables.{select}
use lead_pipe.Deduplication.Fingerprint.{set_update}
use lead_pipe.Domain.{Dict, Json, Members, null, text, object, end, member, RawRecord, get, put}
use lead_pipe.Libraries.{CsvRow, CsvTable}
use lead_pipe.Config.{SourceConfig}
use lead_pipe.Pipeline.Run.{source_error, crashed, Item, collected, rejected, Collection}
use lead_pipe.Sources.Loading.{problem, only_failure}
use lead_pipe.Sources.Api.{given}

pub record CsvOptions : Type 0 where
  pub path : Text
  pub external_id_field : Option Text
  pub source_url_field : Option Text

-- `_clean` of a cell
unfoldable pub clean : Option Text → Option Text
clean none = none
clean (some value) = or_none (strip_by is_space value)

-- `row.get(column)`
abbrev pub cell : Text → CsvRow → Option Text
cell column row = elim (get column row.cells) [ none ↦ none | some value ↦ value ]

abbrev printed : Dict (Option Text) → Members
printed [] = end
printed ((k, none) ∷ cells) = member k null (printed cells)
printed ((k, some v) ∷ cells) = member k (text v) (printed cells)

-- `_printable`
unfoldable pub printable : CsvRow → Json
printable row = object (printed row.cells)

unfoldable pub fields_of : SourceConfig → CsvOptions → CsvRow → Dict (Option Text)
fields_of config options row =
    let mapped = map (λ (target, column). (target, clean (cell column row))) config.mapping in
    elim (given options.external_id_field) [
      | none ↦ mapped
      | some column ↦ put (codes "external_id") (clean (cell column row)) mapped
    ]

unfoldable pub to_record : SourceConfig → CsvOptions → ℕ → CsvRow → Item
to_record config options collected_at row =
    if row.has_overflow
    then rejected (codes "row has more columns than the header")
    else collected (record {
      source = record {
        name = config.name;
        url = elim (given options.source_url_field) [
          | none ↦ none
          | some column ↦ clean (cell column row)
        ];
      };
      fields = fields_of config options row;
      raw = printable row;
      collected_at = collected_at;
    })

abbrev or_empty : Option (List Text) → List Text
or_empty none = []
or_empty (some names) = names

-- the columns that the mapping names and the file lacks, as a set
unfoldable pub missing : SourceConfig → CsvTable → List Text
missing config file =
    select (λ column. not (mem_text column (or_empty file.fieldnames)))
      (set_update (map (λ (target, column). column) config.mapping) [])

abbrev no_columns : Text → List Text → Collection
no_columns name columns = only_failure (
    source_error (
      problem name
        (codes "columns not in file: " ++ join (codes ", ") (sort_by text_order (λ c. c) columns))))

abbrev rows_of : SourceConfig → CsvOptions → ℕ → CsvTable → List Text → Collection
rows_of config options collected_at file [] = record {
  items = map (to_record config options collected_at) file.rows;
  failure = elim file.failure [ none ↦ none | some error ↦ some (crashed error) ];
}
rows_of config options collected_at file (column ∷ columns) =
    no_columns config.name (column ∷ columns)

-- `none` is a path that is no file
unfoldable pub collect : SourceConfig → CsvOptions → ℕ → Option CsvTable → Collection
collect config options collected_at none =
    only_failure (source_error (problem config.name (codes "file not found: " ++ options.path)))
collect config options collected_at (some file) =
    rows_of config options collected_at file (missing config file)
