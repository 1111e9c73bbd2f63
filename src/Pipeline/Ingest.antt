-- ===== src/Pipeline/Ingest.antt =====
-- `_ingest` of app/pipeline/runner.py: one record, from what was collected to the database.
-- Of the errors that it can raise only the `ValueError` of a url is one here; those of the database are not.
use lead_pipe.Prelude.{ℕ, Bool, true, false, Option, none, some, [], ◌∷◌, if◌then◌else◌}
use lead_pipe.Prelude.Unicode.{Unicode}
use lead_pipe.Prelude.Decimal.{str}
use lead_pipe.Prelude.Ints.{ℤ}
use lead_pipe.Prelude.Ratios.{percent}
use lead_pipe.Prelude.Texts.{Text, codes}
use lead_pipe.Domain.{get, RawRecord, NormalizedLead, LeadValidation}
use lead_pipe.Libraries.{Phones, Emails, Urls}
use lead_pipe.Normalization.Record.{normalize_record}
use lead_pipe.Validation.Lead.{validate_lead}
use lead_pipe.Deduplication.Matcher.{MatchResult, rule_value}
use lead_pipe.Deduplication.Merge.{Candidate, merge}
use lead_pipe.Db.{Db, Lead, SourceRecord}
use lead_pipe.Db.Platform.{Platform}
use lead_pipe.Repositories.Leads as Leads
use lead_pipe.Repositories.Records as Records
use lead_pipe.Repositories.Suppressions.{SuppressionList, blocks}
use lead_pipe.Pipeline.Stats.{
  RunStats, add_collected, add_suppressed, add_status, add_duplicate, add_new_lead, add_review,
}
use lead_pipe.Pipeline.Matching.{Match, best_match, remerge}

-- what a call leaves behind, and whether it raised
pub record Outcome : Type 0 where
  pub raised : Bool
  pub stats : RunStats
  pub db : Db

abbrev pub done : RunStats → Db → Outcome
done stats db = record { raised = false; stats = stats; db = db }

abbrev pub raise : RunStats → Db → Outcome
raise stats db = record { raised = true; stats = stats; db = db }

-- the source that is collected, and the run
pub record Context : Type 0 where
  pub source_id : ℕ
  pub priority : ℤ
  pub region : Option Text
  pub job_id : ℕ
  pub now : ℕ

abbrev pub link_of : ℕ → ℕ → MatchResult → Bool → Leads.Link
link_of lead_id record_id r review = record {
  lead_id = lead_id;
  source_record_id = record_id;
  rule = rule_value r.rule;
  confidence = r.confidence;
  needs_review = review;
}

abbrev pub initial : ℕ → ℕ → Leads.Link
initial lead_id record_id = record {
  lead_id = lead_id;
  source_record_id = record_id;
  rule = codes "initial";
  confidence = percent 100;
  needs_review = false;
}

-- the lead that the record belongs to already
abbrev pub own_lead : SourceRecord → Db → Option Lead
own_lead r db = elim r.lead_id [ none ↦ none | some id ↦ Leads.get id db ]

abbrev pub id_of : Option Lead → Option ℕ
id_of none = none
id_of (some l) = some l.id

abbrev pub external_id_of : NormalizedLead → Option Text
external_id_of lead = elim (get (codes "external_id") lead.extra) [ none ↦ none | some id ↦ id ]

-- a match below the threshold is kept as a link to review
abbrev pub review : Option Match → ℕ → Outcome → Outcome
review none record_id o = o
review (some (l, r)) record_id o = if r.auto_merge then o else record o {
  stats = add_review o.stats;
  db = Leads.link (link_of l.id record_id r true) false o.db;
}

-- what raised is not reviewed
abbrev pub then_review : Option Match → ℕ → Outcome → Outcome
then_review m record_id o = if o.raised then o else review m record_id o

module _ ⦃u : Unicode⦄ ⦃p : Phones⦄ ⦃e : Emails⦄ ⦃w : Urls⦄ where
  abbrev pub join_match : Context → NormalizedLead → ℕ → Match → RunStats → Db → Outcome
  join_match c lead record_id (l, r) stats db =
      let (ok, db') = remerge l.id lead record_id c.priority db in
      if ok
      then done (add_duplicate stats) (Leads.link (link_of l.id record_id r false) true db')
      else raise stats db'

  abbrev pub refresh : Context → NormalizedLead → ℕ → Lead → RunStats → Db → Outcome
  refresh c lead record_id own stats db =
      let (ok, db') = remerge own.id lead record_id c.priority db in
      if ok then done (add_duplicate stats) db' else raise stats db'

  -- a lead of its own
  unfoldable pub found : Context → NormalizedLead → LeadValidation → ℕ → RunStats → Db → Outcome
  found c lead v record_id stats db =
      let mine : Candidate = record {
        lead = lead;
        origin = str record_id;
        priority = c.priority;
      } in
      elim (merge (mine ∷ [])) [
        | none ↦ raise stats db
        | some m ↦
            let (lead_id, db') = Leads.create m v c.now db in
            done (add_new_lead stats) (Leads.link (initial lead_id record_id) true db')
      ]

  abbrev pub by_own :
      Context → NormalizedLead → LeadValidation → ℕ → Option Lead → RunStats → Db → Outcome
  by_own c lead v record_id none stats db = found c lead v record_id stats db
  by_own c lead v record_id (some own) stats db = refresh c lead record_id own stats db

  -- the three ways of a record: into the lead that it matches, into its own, or into a new one
  unfoldable pub place :
      Context
      → NormalizedLead
      → LeadValidation
      → ℕ
      → Option Lead
      → Option Match
      → RunStats
      → Db
      → Outcome
  place c lead v record_id own none stats db = by_own c lead v record_id own stats db
  place c lead v record_id own (some (l, r)) stats db =
      if r.auto_merge
      then join_match c lead record_id (l, r) stats db
      else by_own c lead v record_id own stats db

  unfoldable pub resolve :
      ⦃g : Platform⦄
      → Context
      → NormalizedLead
      → LeadValidation
      → SourceRecord
      → RunStats
      → Db
      → Outcome
  resolve c lead v r stats db =
      let own = own_lead r db in
      let m = best_match lead (id_of own) db in
      then_review m r.id (place c lead v r.id own m stats db)

  unfoldable pub store :
      ⦃g : Platform⦄
      → Context
      → RawRecord
      → NormalizedLead
      → LeadValidation
      → RunStats
      → Db
      → Outcome
  store c raw lead v stats db =
      let (r, is_new, db') =
        Records.upsert
          (record {
            source_id = c.source_id;
            lead = lead;
            validation = v;
            job_id = some c.job_id;
            raw = raw.raw;
            external_id = external_id_of lead;
          })
          db in
      resolve c lead v r (add_status v.status stats) db'

  unfoldable pub ingest :
      ⦃g : Platform⦄ → Context → SuppressionList → RawRecord → RunStats → Db → Outcome
  ingest c suppressions raw stats db =
      let lead = normalize_record raw c.region in
      elim (blocks suppressions lead) [
        | some matched_on ↦ done (add_suppressed (add_collected stats)) db
        | none ↦ elim (validate_lead lead) [
          | none ↦ raise (add_collected stats) db
          | some v ↦ store c raw lead v (add_collected stats) db
        ]
      ]
