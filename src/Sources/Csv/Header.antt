-- ===== src/Sources/Csv/Header.antt =====
-- The columns that app/sources/csv_source.py looks for: an item for each row, or no item and an error.
use lead_pipe.Prelude.{
  ℕ, ◌≡◌, refl, ap, Bool, true, false, not, ◌||◌, some, List, [], ◌∷◌, map, arith, inl, inr, any,
  Bool-cases,
}
use lead_pipe.Prelude.Texts.{Text, text_eq, text_eq_iff, mem_text}
use lead_pipe.Prelude.Tables.{select}
use lead_pipe.Deduplication.Fingerprint.{set_add, set_update}
use lead_pipe.Libraries.{CsvTable}
use lead_pipe.Config.{SourceConfig}
use lead_pipe.Pipeline.Run.{source_error}
use lead_pipe.Sources.Csv.{CsvOptions, to_record, missing, or_empty, rows_of, collect}

any-set_add :
    (q : Text → Bool) (g : Text) (set : List Text) → any q (set_add g set) ≡ (q g || any q set)
unfolding set_add mem_text
any-set_add q g [] = refl
any-set_add q g (t ∷ set) = elim (Bool-cases (text_eq g t)) [
  | inl e ↦
      let same : g ≡ t = (text_eq_iff g t).0 e in
      rw e (let k : q g ≡ q t = ap q same in ground (arith, k))
  | inr e ↦ rw e (ground (arith, any-set_add q g set))
]

any-set_update :
    (q : Text → Bool) (gs set : List Text) → any q (set_update gs set) ≡ (any q gs || any q set)
unfolding set_update
any-set_update q [] set = refl
any-set_update q (g ∷ gs) set =
    ground (arith, any-set_update q gs (set_add g set), any-set_add q g set)

any-select : (q : Text → Bool) (xs : List Text) → any q xs ≡ false → select q xs ≡ []
unfolding select
any-select q [] h = refl
any-select q (x ∷ xs) h = ground (arith, any-select q xs)

select-any : (q : Text → Bool) (xs : List Text) → select q xs ≡ [] → any q xs ≡ false
unfolding select
select-any q [] h = refl
select-any q (x ∷ xs) h = elim (Bool-cases (q x)) [
  | inl e ↦ absurd (let k : x ∷ select q xs ≡ [] = rw e at h in cc)
  | inr e ↦ let k : select q xs ≡ [] = rw e at h in rw (e, select-any q xs k) refl
]

-- the mapping names a column that the header lacks
abbrev pub lacks_column : SourceConfig → CsvTable → Bool
lacks_column config file =
    any (λ column. not (mem_text column (or_empty file.fieldnames)))
      (map (λ (target, column). column) config.mapping)

missing-none :
    (config : SourceConfig) (file : CsvTable)
    → lacks_column config file ≡ false
    → missing config file ≡ []
unfolding missing
missing-none config file h =
    let q = λ (column : Text). not (mem_text column (or_empty file.fieldnames)) in
    any-select q (set_update (map (λ (target, column). column) config.mapping) [])
      (rw (any-set_update, h) refl)

none-missing :
    (config : SourceConfig) (file : CsvTable)
    → missing config file ≡ []
    → lacks_column config file ≡ false
unfolding missing
none-missing config file h =
    let q = λ (column : Text). not (mem_text column (or_empty file.fieldnames)) in
    let columns = map (λ (target, column). column) config.mapping in
    let none_left = select-any q (set_update columns []) h in
    ground (arith, any-set_update q columns [], none_left)

refused :
    (config : SourceConfig) (options : CsvOptions) (at_time : ℕ) (file : CsvTable)
    (columns : List Text)
    → (columns ≡ [] → lacks_column config file ≡ false)
    → lacks_column config file ≡ true
    → ((rows_of config options at_time file columns).items ≡ [])
      × ((message : Text) × ((rows_of config options at_time file columns).failure
            ≡ some (source_error message)))
refused config options at_time file [] k h = absurd (let n = k refl in cc)
refused config options at_time file (c ∷ cs) k h = (refl, (_, refl))

-- If the mapping names a column that the header lacks, the collection of a file yields nothing and ends
-- with a `SourceError`; if not, it yields one item for each row, in the order of the rows.
pub collect-by_header :
    (config : SourceConfig) (options : CsvOptions) (collected_at : ℕ) (file : CsvTable)
    → (lacks_column config file ≡ true
        → ((collect config options collected_at (some file)).items ≡ [])
          × ((message : Text) × ((collect config options collected_at (some file)).failure
                ≡ some (source_error message))))
      × (lacks_column config file ≡ false
          → (collect config options collected_at (some file)).items
            ≡ map (to_record config options collected_at) file.rows)
unfolding collect
collect-by_header config options collected_at file = (
  λ h. refused config options collected_at file (missing config file) (none-missing config file) h,
  λ h. rw (collect, missing-none config file h) refl,
)
