-- ===== src/Repositories/Leads/Provenance.antt =====
-- `provenance` of app/repositories/leads.py: the records that a lead was built from.
use lead_pipe.Prelude.{ℕ, Bool, Option, none, some, List, [], ◌∷◌, ◌==◌}
use lead_pipe.Prelude.Ratios.{Ratio}
use lead_pipe.Prelude.Texts.{Text}
use lead_pipe.Prelude.Tables.{select, find}
use lead_pipe.Db.{Db, LeadMerge, Source, SourceRecord}

pub record Provenance : Type 0 where
  pub source_name : Text
  pub source_record_id : ℕ
  pub source_url : Option Text
  pub rule : Text
  pub confidence : Ratio
  pub needs_review : Bool

abbrev provenance_of : LeadMerge → SourceRecord → Source → Provenance
provenance_of m r s = record {
  source_name = s.name;
  source_record_id = r.id;
  source_url = r.source_url;
  rule = m.rule;
  confidence = m.confidence;
  needs_review = m.needs_review;
}

-- the joins: a link without its record, or a record without its source, gives no row
unfoldable pub traced : Db → List LeadMerge → List Provenance
traced db [] = []
traced db (m ∷ ms) =
    let rest = traced db ms in
    elim (find (λ (r : SourceRecord). r.id == m.source_record_id) db.records.rows) [
      | none ↦ rest
      | some r ↦ elim (find (λ (s : Source). s.id == r.source_id) db.sources.rows) [
        | none ↦ rest
        | some s ↦ provenance_of m r s ∷ rest
      ]
    ]

unfoldable pub provenance : ℕ → Db → List Provenance
provenance lead_id db = traced db (select (λ (m : LeadMerge). m.lead_id == lead_id) db.merges.rows)
