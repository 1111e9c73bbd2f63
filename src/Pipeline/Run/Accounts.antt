-- ===== src/Pipeline/Run/Accounts.antt =====
-- The counters of a run of app/pipeline/runner.py account for every record.
use lead_pipe.Prelude.{
  ℕ, ◌+◌, ◌≤◌, ◌≡◌, true, false, Option, none, some, List, [], ◌∷◌, arith, ◌⊎◌, inl, inr,
  Option-cases, Bool-cases, if◌then◌else◌,
}
use lead_pipe.Prelude.Unicode.{Unicode}
use lead_pipe.Domain.{NormalizedLead, LeadValidation, ValidationStatus, RawRecord}
use lead_pipe.Libraries.{Phones, Emails, Urls}
use lead_pipe.Normalization.Record.{normalize_record}
use lead_pipe.Validation.Lead.{validate_lead}
use lead_pipe.Db.{Db, Lead}
use lead_pipe.Db.Platform.{Platform}
use lead_pipe.Repositories.Suppressions.{SuppressionList, blocks}
use lead_pipe.Pipeline.Stats.{
  RunStats, no_stats, add_collected, add_status, add_duplicate, add_new_lead, add_error,
}
use lead_pipe.Pipeline.Matching.{Match}
use lead_pipe.Pipeline.Ingest.{
  Context, Outcome, ingest, store, resolve, place, found, by_own, then_review,
}
use lead_pipe.Prelude.Texts.{Text}
use lead_pipe.Config.{AppConfig, SourceConfig, source_of}
use lead_pipe.Jobs.Service.{upsert_config}
use lead_pipe.Repositories.Jobs.{get}
use lead_pipe.Pipeline.Run.{
  Failure, source_error, crashed, collection_crashed, Item, rejected, collected, ingest_item,
  ingest_all, Collection, Ending, unknown_source, job_not_found, collection_failed,
  collection_completed, finish, run_job, run_collection,
}

pub record IsBalanced (s : RunStats) : Type 0 where
  -- a record that was given a lead was graded, and was not suppressed
  pub graded : s.duplicates + s.new_leads ≤ s.valid + s.invalid + s.unknown
  pub taken : s.suppressed + s.valid + s.invalid + s.unknown ≤ s.collected
  -- a record that was not given a lead was suppressed or is an error
  pub lost : s.collected ≤ s.suppressed + s.duplicates + s.new_leads + s.errors
  pub reviewed : s.needs_review ≤ s.duplicates + s.new_leads

-- The counters that a run ends with, if it ran, are balanced.
abbrev pub EndsBalanced : Ending → Type 0
EndsBalanced unknown_source = Unit
EndsBalanced job_not_found = Unit
EndsBalanced (collection_failed error s db) = IsBalanced s
EndsBalanced (collection_crashed error s db) = IsBalanced s
EndsBalanced (collection_completed s db) = IsBalanced s

-- A record was placed, once, or the call raised and counted nothing.
abbrev pub Placed : RunStats → Outcome → Type 0
Placed s o =
    ((o.raised ≡ false) × (o.stats ≡ add_duplicate s))
    ⊎ ((o.raised ≡ false) × (o.stats ≡ add_new_lead s))
    ⊎ ((o.raised ≡ true) × (o.stats ≡ s))

module _ ⦃u : Unicode⦄ ⦃p : Phones⦄ ⦃e : Emails⦄ ⦃w : Urls⦄ where
  found-Placed :
      (c : Context) (lead : NormalizedLead) (v : LeadValidation) (id : ℕ) (s : RunStats) (db : Db)
      → Placed s (found c lead v id s db)
  unfolding found
  found-Placed c lead v id s db = ground arith

  by_own-Placed :
      (c : Context) (lead : NormalizedLead) (v : LeadValidation) (id : ℕ) (own : Option Lead)
      (s : RunStats) (db : Db)
      → Placed s (by_own c lead v id own s db)
  by_own-Placed c lead v id none s db = found-Placed c lead v id s db
  by_own-Placed c lead v id (some own) s db = ground arith

  pub place-Placed :
      (c : Context) (lead : NormalizedLead) (v : LeadValidation) (id : ℕ) (own : Option Lead)
      (m : Option Match) (s : RunStats) (db : Db)
      → Placed s (place c lead v id own m s db)
  unfolding place
  place-Placed c lead v id own none s db = by_own-Placed c lead v id own s db
  place-Placed c lead v id own (some (l, r)) s db = elim (Bool-cases r.auto_merge) [
    | inl x ↦ rw x (ground arith)
    | inr x ↦ rw x (by_own-Placed c lead v id own s db)
  ]

-- the counters after a call, with its error if it raised
abbrev pub settled : Outcome → RunStats
settled o = if o.raised then add_error o.stats else o.stats

graded_once : ValidationStatus → RunStats → RunStats
graded_once v s = add_status v (add_collected s)

-- The counters while one record is graded and not yet placed.
record IsOpen (s : RunStats) : Type 0 where
  graded : s.duplicates + s.new_leads + 1 ≤ s.valid + s.invalid + s.unknown
  taken : s.suppressed + s.valid + s.invalid + s.unknown ≤ s.collected
  lost : s.collected ≤ s.suppressed + s.duplicates + s.new_leads + s.errors + 1
  reviewed : s.needs_review ≤ s.duplicates + s.new_leads

graded_once-IsOpen : (v : ValidationStatus) (s : RunStats) → IsBalanced s → IsOpen (graded_once v s)
unfolding graded_once
graded_once-IsOpen ValidationStatus.valid s b = omega arith
graded_once-IsOpen ValidationStatus.invalid s b = omega arith
graded_once-IsOpen ValidationStatus.unknown s b = omega arith

-- Placing closes the record, reviewed or not.
settled-IsBalanced :
    (m : Option Match) (id : ℕ) (s : RunStats) (o : Outcome)
    → IsOpen s
    → Placed s o
    → IsBalanced (settled (then_review m id o))
settled-IsBalanced none id s o b pl = ground arith
settled-IsBalanced (some (l, r)) id s o b pl = ground arith

module _ ⦃u : Unicode⦄ ⦃p : Phones⦄ ⦃e : Emails⦄ ⦃w : Urls⦄ ⦃g : Platform⦄ where
  store-IsBalanced :
      (c : Context) (raw : RawRecord) (lead : NormalizedLead) (v : LeadValidation) (s : RunStats)
      (db : Db)
      → IsBalanced s
      → IsBalanced (settled (store c raw lead v (add_collected s) db))
  unfolding store resolve
  store-IsBalanced c raw lead v s db b =
      settled-IsBalanced _ _ (add_status v.status (add_collected s)) _
        (unfold graded_once in graded_once-IsOpen v.status s b) (place-Placed c lead v _ _ _ _ _)

  ingest-IsBalanced :
      (c : Context) (l : SuppressionList) (raw : RawRecord) (s : RunStats) (db : Db)
      → IsBalanced s
      → IsBalanced (settled (ingest c l raw s db))
  unfolding ingest
  ingest-IsBalanced c l raw s db b =
      let lead = normalize_record raw c.region in
      elim (Option-cases (blocks l lead)) [
        | inr (on, x) ↦ rw (x, ingest) (omega arith)
        | inl x ↦ elim (Option-cases (validate_lead lead)) [
          | inl y ↦ rw (x, y, ingest) (omega arith)
          | inr (v, y) ↦ rw (x, y, ingest) (store-IsBalanced c raw lead v s db b)
        ]
      ]

  ingest_item-IsBalanced :
      (c : Context) (l : SuppressionList) (i : Item) (s : RunStats) (db : Db)
      → IsBalanced s
      → IsBalanced (ingest_item c l i s db).0
  unfolding ingest_item
  ingest_item-IsBalanced c l (rejected m) s db b = omega arith
  ingest_item-IsBalanced c l (collected raw) s db b = ingest-IsBalanced c l raw s db b

  ingest_all-IsBalanced :
      (c : Context) (l : SuppressionList) (is : List Item) (s : RunStats) (db : Db)
      → IsBalanced s
      → IsBalanced (ingest_all c l is s db).0
  unfolding ingest_all
  ingest_all-IsBalanced c l [] s db b = b
  ingest_all-IsBalanced c l (i ∷ is) s db b =
      let (s', db') = ingest_item c l i s db in
      ingest_all-IsBalanced c l is s' db' (ingest_item-IsBalanced c l i s db b)

  -- When no record of a run is an error, the collected records are the suppressed and the graded ones,
  -- and the graded ones are those that were joined to a lead or made a new one.
  pub ingest_all-exact :
      (c : Context) (l : SuppressionList) (is : List Item) (db : Db)
      → (ingest_all c l is no_stats db).0.errors ≡ 0
      → let s = (ingest_all c l is no_stats db).0 in
        (s.collected ≡ s.suppressed + s.valid + s.invalid + s.unknown)
        × (s.valid + s.invalid + s.unknown ≡ s.duplicates + s.new_leads)
  ingest_all-exact c l is db none_failed =
      let b = ingest_all-IsBalanced c l is no_stats db (omega arith) in omega (arith, b)

  IsBalanced-run :
      (c : Context) (l : SuppressionList) (is : List Item) (db : Db)
      → IsBalanced (ingest_all c l is no_stats db).0
  IsBalanced-run c l is db = ingest_all-IsBalanced c l is no_stats db (omega arith)

  finish-EndsBalanced :
      (job_id now : ℕ) (failure : Option Failure) (s : RunStats) (db : Db)
      → IsBalanced s
      → EndsBalanced (finish job_id now failure (s, db))
  finish-EndsBalanced job_id now none s db b = b
  finish-EndsBalanced job_id now (some (source_error e)) s db b = b
  finish-EndsBalanced job_id now (some (crashed e)) s db b = b

  run_job-EndsBalanced :
      (config : SourceConfig) (region : Option Text) (source_id : ℕ) (collection : Collection)
      (now job_id : ℕ) (db : Db)
      → EndsBalanced (run_job config region source_id collection now job_id db)
  run_job-EndsBalanced config region source_id collection now job_id db =
      finish-EndsBalanced job_id now collection.failure _ _ (IsBalanced-run _ _ collection.items _)

  -- However a run ends, completed or failed, and whatever was collected and stored before: every
  -- record that it collected was suppressed, joined to a lead, made a new lead or counted as an
  -- error; no more were given leads than were graded, no more were suppressed or graded than were
  -- collected, and no more are to be reviewed than were given leads.
  pub run_collection-EndsBalanced :
      (config : AppConfig) (name : Text) (job_id : Option ℕ) (collection : Collection) (now : ℕ)
      (db : Db)
      → EndsBalanced (run_collection config name job_id collection now db)
  unfolding run_collection
  run_collection-EndsBalanced config name none collection now db =
      elim (Option-cases (source_of config name)) [
        | inl e ↦ rw (e, run_collection) tt
        | inr (c, e) ↦ rw (e, run_collection) (run_job-EndsBalanced c _ _ collection now _ _)
      ]
  run_collection-EndsBalanced config name (some id) collection now db =
      elim (Option-cases (source_of config name)) [
        | inl e ↦ rw (e, run_collection) tt
        | inr (c, e) ↦ elim (Option-cases (get id (upsert_config c db).1)) [
          | inl x ↦ rw (e, run_collection, x) tt
          | inr (j, x) ↦ rw (e, run_collection, x) (run_job-EndsBalanced c _ _ collection now _ _)
        ]
      ]
