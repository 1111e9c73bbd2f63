-- ===== src/Sources/Csv/Rows.antt =====
-- The rows of app/sources/csv_source.py in the counters of app/pipeline/runner.py.
use lead_pipe.Prelude.{
  ℕ, ◌≤◌, ◌≡◌, refl, false, not, some, List, [], ◌∷◌, map, arith, inl, inr, length, Bool-cases,
}
use lead_pipe.Prelude.Unicode.{Unicode}
use lead_pipe.Prelude.Texts.{}
use lead_pipe.Prelude.Tables.{count}
use lead_pipe.Libraries.{CsvRow, CsvTable, Phones, Emails, Urls}
use lead_pipe.Db.{Db}
use lead_pipe.Db.Platform.{Platform}
use lead_pipe.Repositories.Suppressions.{SuppressionList}
use lead_pipe.Config.{SourceConfig}
use lead_pipe.Pipeline.Stats.{no_stats}
use lead_pipe.Pipeline.Ingest.{Context}
use lead_pipe.Pipeline.Run.{ingest_all}
use lead_pipe.Pipeline.Run.Counted.{is_record, is_rejected, ingest_all-counts}
use lead_pipe.Sources.Csv.Header.{lacks_column, collect-by_header}
use lead_pipe.Sources.Csv.{CsvOptions, to_record, collect}

counted :
    (config : SourceConfig) (options : CsvOptions) (at_time : ℕ) (rows : List CsvRow)
    → let items = map (to_record config options at_time) rows in
      (count is_record items ≡ count (λ r. not r.has_overflow) rows)
      × (count is_rejected items ≡ count (λ r. r.has_overflow) rows)
      × (length items ≡ length rows)
unfolding count to_record
counted config options at_time [] = (refl, refl, refl)
counted config options at_time (row ∷ rows) =
    let rest = counted config options at_time rows in
    elim (Bool-cases row.has_overflow) [
      | inl e ↦ rw e (omega (arith, rest))
      | inr e ↦ rw e (omega (arith, rest))
    ]

module _ ⦃u : Unicode⦄ ⦃p : Phones⦄ ⦃e : Emails⦄ ⦃w : Urls⦄ ⦃g : Platform⦄ where
  -- When a file has the columns that the mapping names, the run over what is collected from it counts
  -- as collected the rows that are no longer than the header, and as errors at least the others and at
  -- most all rows: no row goes uncounted.
  pub ingest_all-rows :
      (config : SourceConfig) (options : CsvOptions) (collected_at : ℕ) (file : CsvTable)
      (c : Context) (l : SuppressionList) (db : Db)
      → lacks_column config file ≡ false
      → let s =
          (ingest_all c l (collect config options collected_at (some file)).items no_stats db).0 in
        (s.collected ≡ count (λ r. not r.has_overflow) file.rows)
        × (count (λ r. r.has_overflow) file.rows ≤ s.errors)
        × (s.errors ≤ length file.rows)
  ingest_all-rows config options collected_at file c l db h =
      let items = map (to_record config options collected_at) file.rows in
      rw ((collect-by_header config options collected_at file).1 h) (
        omega (
          arith,
          counted config options collected_at file.rows,
          ingest_all-counts c l items no_stats db,
        ))
