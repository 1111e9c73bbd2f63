-- ===== src/Tests/Sheets.antt =====
-- The CSV export of app/exports at a concrete input, with a writer of rows that can be read back: a row
-- is its cells, each with a 0 after it and its other characters moved by 1.
use lead_pipe.Prelude.{zero, suc, ℕ, ◌≡◌, refl, true, some, List, [], ◌∷◌, map, arith}
use lead_pipe.Prelude.Decimal.{str}
use lead_pipe.Prelude.Texts.{Text, codes}
use lead_pipe.Prelude.Unicode.{ascii}
use lead_pipe.Prelude.Tables.{select}
use lead_pipe.Libraries.{Formats}
use lead_pipe.Tests.Instances.{platform}
use lead_pipe.Tests.Pipeline.{stored}
use lead_pipe.Repositories.Leads.Pages.{conditions}
use lead_pipe.Exports.{export_leads}
use lead_pipe.Exports.Written.{sheet_row, read_sheet, export_leads-read_sheet}
use lead_pipe.Api.Lists.{no_filter}

abbrev closed : Text → Text → Text
closed [] rest = 0 ∷ rest
closed (c ∷ s) rest = suc c ∷ closed s rest

abbrev written : List Text → Text
written [] = []
written (cell ∷ cells) = closed cell (written cells)

abbrev pushed : ℕ → List Text → List Text
pushed c [] = []
pushed c (cell ∷ cells) = (c ∷ cell) ∷ cells

abbrev read_back : Text → List Text
read_back [] = []
read_back (zero ∷ s) = [] ∷ read_back s
read_back (suc c ∷ s) = pushed c (read_back s)

read_back-closed : (cell rest : Text) → read_back (closed cell rest) ≡ cell ∷ read_back rest
read_back-closed [] rest = refl
read_back-closed (c ∷ s) rest = rw (read_back-closed s rest) refl

read_back-written : (cells : List Text) → read_back (written cells) ≡ cells
read_back-written [] = refl
read_back-written (cell ∷ cells) =
    rw (read_back-closed cell (written cells), read_back-written cells) refl

instance abbrev sheets : Formats
sheets = record {
  repr = λ t. t;
  isoformat = λ t. str t;
  dumps = λ j. codes "{}";
  writerow = written;
}

export_leads-read_sheet_example :
    read_sheet read_back (export_leads 2 (codes "csv") no_filter 500 stored)
    ≡ some (map (sheet_row stored) (select (conditions no_filter stored) stored.leads.rows), true)
export_leads-read_sheet_example =
    export_leads-read_sheet read_back read_back-written 2 no_filter 500 stored (omega arith)
      (omega arith, tt) (tt, tt) (omega arith)
