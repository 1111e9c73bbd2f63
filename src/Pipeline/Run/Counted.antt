-- ===== src/Pipeline/Run/Counted.antt =====
-- The counters of a run of app/pipeline/runner.py, against the items that the adapter yields.
use lead_pipe.Prelude.{
  ℕ, ◌+◌, ◌≤◌, ◌≡◌, Bool, true, false, Option, none, some, List, [], ◌∷◌, arith, inl, inr, length,
  Option-cases,
}
use lead_pipe.Prelude.Unicode.{Unicode}
use lead_pipe.Prelude.Tables.{count}
use lead_pipe.Domain.{NormalizedLead, LeadValidation, ValidationStatus, RawRecord}
use lead_pipe.Libraries.{Phones, Emails, Urls}
use lead_pipe.Normalization.Record.{normalize_record}
use lead_pipe.Validation.Lead.{validate_lead}
use lead_pipe.Db.{Db}
use lead_pipe.Db.Platform.{Platform}
use lead_pipe.Repositories.Suppressions.{SuppressionList, blocks}
use lead_pipe.Pipeline.Stats.{RunStats, add_collected, add_status}
use lead_pipe.Pipeline.Matching.{Match}
use lead_pipe.Pipeline.Ingest.{Context, Outcome, ingest, store, resolve, then_review}
use lead_pipe.Pipeline.Run.{Item, rejected, collected, ingest_item, ingest_all}
use lead_pipe.Pipeline.Run.Accounts.{settled, Placed, place-Placed}

abbrev pub is_record : Item → Bool
is_record (collected raw) = true
is_record (rejected message) = false

abbrev pub is_rejected : Item → Bool
is_rejected (collected raw) = false
is_rejected (rejected message) = true

-- one record more is collected, and one error more at most
abbrev OneMore : RunStats → RunStats → Type 0
OneMore s t = (t.collected ≡ s.collected + 1) × (s.errors ≤ t.errors) × (t.errors ≤ s.errors + 1)

graded-OneMore :
    (v : ValidationStatus) (m : Option Match) (id : ℕ) (s : RunStats) (o : Outcome)
    → Placed (add_status v (add_collected s)) o
    → OneMore s (settled (then_review m id o))
graded-OneMore ValidationStatus.valid none id s o pl = ground arith
graded-OneMore ValidationStatus.invalid none id s o pl = ground arith
graded-OneMore ValidationStatus.unknown none id s o pl = ground arith
graded-OneMore ValidationStatus.valid (some (l, r)) id s o pl = ground arith
graded-OneMore ValidationStatus.invalid (some (l, r)) id s o pl = ground arith
graded-OneMore ValidationStatus.unknown (some (l, r)) id s o pl = ground arith

module _ ⦃u : Unicode⦄ ⦃p : Phones⦄ ⦃e : Emails⦄ ⦃w : Urls⦄ ⦃g : Platform⦄ where
  store-OneMore :
      (c : Context) (raw : RawRecord) (lead : NormalizedLead) (v : LeadValidation) (s : RunStats)
      (db : Db)
      → OneMore s (settled (store c raw lead v (add_collected s) db))
  unfolding store resolve
  store-OneMore c raw lead v s db =
      graded-OneMore v.status _ _ s _ (place-Placed c lead v _ _ _ _ _)

  ingest-OneMore :
      (c : Context) (l : SuppressionList) (raw : RawRecord) (s : RunStats) (db : Db)
      → OneMore s (settled (ingest c l raw s db))
  unfolding ingest
  ingest-OneMore c l raw s db =
      let lead = normalize_record raw c.region in
      elim (Option-cases (blocks l lead)) [
        | inr (on, x) ↦ rw (x, ingest) (omega arith)
        | inl x ↦ elim (Option-cases (validate_lead lead)) [
          | inl y ↦ rw (x, y, ingest) (omega arith)
          | inr (v, y) ↦ rw (x, y, ingest) (store-OneMore c raw lead v s db)
        ]
      ]

  pub ingest_all-counts :
      (c : Context) (l : SuppressionList) (items : List Item) (s : RunStats) (db : Db)
      → let t = (ingest_all c l items s db).0 in
        (t.collected ≡ s.collected + count is_record items)
        × (s.errors + count is_rejected items ≤ t.errors)
        × (t.errors ≤ s.errors + length items)
  unfolding ingest_all count ingest_item
  ingest_all-counts c l [] s db = omega arith
  ingest_all-counts c l (rejected m ∷ items) s db =
      let (s', db') = ingest_item c l (rejected m) s db in
      omega (arith, ingest_all-counts c l items s' db')
  ingest_all-counts c l (collected raw ∷ items) s db =
      let (s', db') = ingest_item c l (collected raw) s db in
      omega (arith, ingest_all-counts c l items s' db', ingest-OneMore c l raw s db)
