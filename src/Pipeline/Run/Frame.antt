-- ===== src/Pipeline/Run/Frame.antt =====
-- What `run_collection` of app/pipeline/runner.py does to the table of jobs: storing records does not
-- touch it.
use lead_pipe.Prelude.{
  ℕ, ◌≡◌, ◌∙◌, refl, Bool, true, false, Option, none, some, List, [], ◌∷◌, arith, inl, inr,
  Option-cases, Bool-cases,
}
use lead_pipe.Prelude.Ints.{ℤ}
use lead_pipe.Prelude.Decimal.{str}
use lead_pipe.Prelude.Unicode.{Unicode}
use lead_pipe.Prelude.Tables.{find}
use lead_pipe.Domain.{NormalizedLead, LeadValidation, RawRecord}
use lead_pipe.Libraries.{Phones, Emails, Urls}
use lead_pipe.Validation.Lead.{validate_lead}
use lead_pipe.Normalization.Record.{normalize_record}
use lead_pipe.Deduplication.Merge.{Candidate, merge}
use lead_pipe.Db.{Db, Lead, SourceRecord}
use lead_pipe.Db.Platform.{Platform}
use lead_pipe.Repositories.Leads as Leads
use lead_pipe.Repositories.Records as Records
use lead_pipe.Repositories.Suppressions.{SuppressionList, blocks}
use lead_pipe.Pipeline.Stats.{RunStats, add_collected}
use lead_pipe.Pipeline.Matching.{Match, remerge, best_match}
use lead_pipe.Pipeline.Ingest.{
  Context, Outcome, ingest, store, resolve, place, found, by_own, initial, link_of, own_lead, id_of,
  then_review,
}
use lead_pipe.Pipeline.Run.{Item, collected, rejected, ingest_item, ingest_all}

jobs-link : (k : Leads.Link) (claim : Bool) (db : Db) → (Leads.link k claim db).jobs ≡ db.jobs
jobs-link k claim db = elim (Option-cases (find (Leads.is_pair k) db.merges.rows)) [
  | inl e ↦ unfold Leads.link in rw (e, Leads.link) refl
  | inr (m, e) ↦ unfold Leads.link in rw (e, Leads.link) refl
]

module _ ⦃u : Unicode⦄ ⦃p : Phones⦄ ⦃e : Emails⦄ ⦃w : Urls⦄ where
  jobs-remerge :
      (id : ℕ) (lead : NormalizedLead) (record_id : ℕ) (priority : ℤ) (db : Db)
      → (remerge id lead record_id priority db).1.jobs ≡ db.jobs
  unfolding remerge Leads.update
  jobs-remerge id lead record_id priority db = ground arith

  jobs-found :
      (c : Context) (lead : NormalizedLead) (v : LeadValidation) (id : ℕ) (s : RunStats) (db : Db)
      → (found c lead v id s db).db.jobs ≡ db.jobs
  unfolding found Leads.create
  jobs-found c lead v id s db =
      let mine : Candidate = record { lead = lead; origin = str id; priority = c.priority } in
      elim (Option-cases (merge (mine ∷ []))) [
        | inl e ↦ rw (e, found) refl
        | inr (m, e) ↦
            rw (e, found)
              (jobs-link (initial (Leads.create m v c.now db).0 id) true
                (Leads.create m v c.now db).1)
      ]

  jobs-by_own :
      (c : Context) (lead : NormalizedLead) (v : LeadValidation) (id : ℕ) (own : Option Lead)
      (s : RunStats) (db : Db)
      → (by_own c lead v id own s db).db.jobs ≡ db.jobs
  jobs-by_own c lead v id none s db = jobs-found c lead v id s db
  jobs-by_own c lead v id (some own) s db =
      ground (arith, jobs-remerge own.id lead id c.priority db)

  jobs-place :
      (c : Context) (lead : NormalizedLead) (v : LeadValidation) (id : ℕ) (own : Option Lead)
      (m : Option Match) (s : RunStats) (db : Db)
      → (place c lead v id own m s db).db.jobs ≡ db.jobs
  unfolding place
  jobs-place c lead v id own none s db = jobs-by_own c lead v id own s db
  jobs-place c lead v id own (some (l, r)) s db = elim (Bool-cases r.auto_merge) [
    | inr x ↦ rw x (jobs-by_own c lead v id own s db)
    | inl x ↦
        let db' = (remerge l.id lead id c.priority db).1 in
        rw x (
          ground (
            arith,
            jobs-remerge l.id lead id c.priority db,
            jobs-link (link_of l.id id r false) true db',
          ))
  ]

  jobs-then_review :
      (m : Option Match) (id : ℕ) (o : Outcome) → (then_review m id o).db.jobs ≡ o.db.jobs
  jobs-then_review none id o = ground arith
  jobs-then_review (some (l, r)) id o =
      ground (arith, jobs-link (link_of l.id id r true) false o.db)

  module _ ⦃g : Platform⦄ where
    jobs-upsert : (i : Records.Incoming) (db : Db) → (Records.upsert i db).2.jobs ≡ db.jobs
    jobs-upsert i db =
        elim (Option-cases
          (Records.by_key i.source_id (Records.record_key i.lead i.external_id) db)) [
            | inl x ↦ unfold Records.upsert in rw (x, Records.upsert) refl
            | inr (r, x) ↦ unfold Records.upsert in rw (x, Records.upsert) refl
          ]

    jobs-resolve :
        (c : Context) (lead : NormalizedLead) (v : LeadValidation) (r : SourceRecord) (s : RunStats)
        (db : Db)
        → (resolve c lead v r s db).db.jobs ≡ db.jobs
    unfolding resolve
    jobs-resolve c lead v r s db =
        let own = own_lead r db in
        let m = best_match lead (id_of own) db in
        jobs-then_review m r.id (place c lead v r.id own m s db)
        ∙ jobs-place c lead v r.id own m s db

    jobs-store :
        (c : Context) (raw : RawRecord) (lead : NormalizedLead) (v : LeadValidation) (s : RunStats)
        (db : Db)
        → (store c raw lead v s db).db.jobs ≡ db.jobs
    unfolding store
    jobs-store c raw lead v s db = jobs-resolve c lead v _ _ _ ∙ jobs-upsert _ db

    jobs-ingest :
        (c : Context) (l : SuppressionList) (raw : RawRecord) (s : RunStats) (db : Db)
        → (ingest c l raw s db).db.jobs ≡ db.jobs
    unfolding ingest
    jobs-ingest c l raw s db =
        let lead = normalize_record raw c.region in
        elim (Option-cases (blocks l lead)) [
          | inr (why, x) ↦ rw (x, ingest) refl
          | inl x ↦ elim (Option-cases (validate_lead lead)) [
            | inl y ↦ rw (x, ingest, y) refl
            | inr (v, y) ↦ rw (x, ingest, y) (jobs-store c raw lead v (add_collected s) db)
          ]
        ]

    pub jobs-ingest_all :
        (c : Context) (l : SuppressionList) (is : List Item) (s : RunStats) (db : Db)
        → (ingest_all c l is s db).1.jobs ≡ db.jobs
    unfolding ingest_all ingest_item
    jobs-ingest_all c l [] s db = refl
    jobs-ingest_all c l (rejected why ∷ is) s db = jobs-ingest_all c l is _ db
    jobs-ingest_all c l (collected raw ∷ is) s db =
        jobs-ingest_all c l is _ (ingest c l raw s db).db ∙ jobs-ingest c l raw s db
