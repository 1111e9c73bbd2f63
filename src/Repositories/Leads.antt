-- ===== src/Repositories/Leads.antt =====
-- app/repositories/leads.py: finding, writing, linking and erasing leads. The rows of a table stand in
-- the order of their ids, so that `ORDER BY id` keeps their order.
pub mod Pages
pub mod Provenance
pub mod Cascade
use lead_pipe.Prelude.{
  ℕ, ◌+◌, ◌≡◌, max, Bool, true, false, not, ◌&&◌, ◌||◌, Option, none, some, List, [], ◌∷◌, ◌==◌,
  ltb, any, take, length, if◌then◌else◌,
}
use lead_pipe.Prelude.Unicode.{Unicode}
use lead_pipe.Prelude.Decimal.{str}
use lead_pipe.Prelude.Ratios.{Ratio, ratio_le}
use lead_pipe.Prelude.Texts.{Text, text_eq, opt_text_eq, truthy}
use lead_pipe.Prelude.Tables.{select, find, count}
use lead_pipe.Domain.{NormalizedLead, LeadValidation}
use lead_pipe.Deduplication.Fingerprint.{Fingerprints, company_slug, location_of}
use lead_pipe.Deduplication.Matcher.{MatchPolicy}
use lead_pipe.Deduplication.Merge.{Candidate, MergedLead}
use lead_pipe.Db.{Db, Lead, LeadMerge, Source, SourceRecord}
use lead_pipe.Db.Tables.{Table, add, update_rows, delete_rows}
use lead_pipe.Db.Platform.{Platform}

unfoldable pub get : ℕ → Db → Option Lead
get id db = find (λ l. l.id == id) db.leads.rows

-- `column == value`, where there is a value to look for
abbrev column_is : Option Text → Option Text → Bool
column_is column none = false
column_is column (some v) = truthy v && opt_text_eq column (some v)

abbrev present : Option Text → Bool
present none = false
present (some v) = truthy v

-- `similarity(column, slug) >= threshold`, which is not true of NULL
abbrev is_similar : ⦃g : Platform⦄ → Ratio → Option Text → Option Text → Bool
is_similar threshold none slug = false
is_similar threshold (some name) none = false
is_similar ⦃g⦄ threshold (some name) (some slug) = ratio_le threshold (g.similarity name slug)

unfoldable pub is_candidate : ⦃g : Platform⦄ → Fingerprints → MatchPolicy → Lead → Bool
is_candidate fp policy l =
    column_is l.email fp.email
    || column_is l.website_domain fp.domain
    || column_is l.phone fp.phone
    || (present fp.name_slug
        && column_is l.location_key fp.location
        && is_similar policy.name_similarity_threshold l.name_slug fp.name_slug)

-- without a condition no row is a candidate
unfoldable pub find_candidates : ⦃g : Platform⦄ → Fingerprints → MatchPolicy → ℕ → Db → List Lead
find_candidates fp policy limit db = take limit (select (is_candidate fp policy) db.leads.rows)

module _ ⦃u : Unicode⦄ where
  -- `_apply`, to a row of the given id and times
  unfoldable pub applied : MergedLead → LeadValidation → ℕ → ℕ → ℕ → Lead
  applied merged validation first_seen created id =
      let value = merged.lead in
      record {
        id = id;
        company_name = value.company_name;
        contact_name = value.contact_name;
        website = value.website;
        website_domain = value.website_domain;
        email = value.email;
        phone = value.phone;
        address = value.address;
        city = value.city;
        country = value.country;
        name_slug = company_slug value.company_name;
        location_key = location_of value.city value.country;
        validation_status = validation.status;
        extra = value.extra;
        first_seen_at = first_seen;
        last_seen_at = max first_seen value.collected_at;
        created_at = created;
      }

  -- the new row's id, and the database
  unfoldable pub create : MergedLead → LeadValidation → ℕ → Db → ℕ × Db
  create merged validation now db = (
    db.leads.next_id,
    record db { leads = add (applied merged validation merged.lead.collected_at now) db.leads },
  )

  unfoldable pub update : ℕ → MergedLead → LeadValidation → Db → Db
  update id merged validation db = record db {
    leads =
        update_rows (λ l. l.id == id)
          (λ l. applied merged validation l.first_seen_at l.created_at l.id) db.leads;
  }

-- `ON DELETE CASCADE` of `source_records.lead_id` and of both columns of `lead_merges`
abbrev pub lead_gone : (Lead → Bool) → Db → ℕ → Bool
lead_gone p db id = any (λ l. p l && l.id == id) db.leads.rows

abbrev pub record_gone : (Lead → Bool) → Db → SourceRecord → Bool
record_gone p db r = elim r.lead_id [ none ↦ false | some id ↦ lead_gone p db id ]

abbrev pub merge_gone : (Lead → Bool) → Db → LeadMerge → Bool
merge_gone p db m =
    lead_gone p db m.lead_id
    || any (λ r. record_gone p db r && r.id == m.source_record_id) db.records.rows

-- DELETE FROM leads WHERE p
unfoldable pub delete_where : (Lead → Bool) → Db → ℕ × Db
delete_where p db = (
  count p db.leads.rows,
  record db {
    leads = delete_rows p db.leads;
    records = delete_rows (record_gone p db) db.records;
    merges = delete_rows (merge_gone p db) db.merges;
  },
)

unfoldable pub delete : ℕ → Db → Bool × Db
delete id db = let (n, db') = delete_where (λ l. l.id == id) db in (ltb 0 n, db')

-- `last_seen_at < cutoff`; the age is in microseconds
abbrev pub older : ℕ → ℕ → Lead → Bool
older now age l = ltb (l.last_seen_at + age) now

unfoldable pub purge_older_than : ℕ → ℕ → Db → ℕ × Db
purge_older_than now age db = delete_where (older now age) db

unfoldable pub count_older_than : ℕ → ℕ → Db → ℕ
count_older_than now age db = count (older now age) db.leads.rows

-- `_to_normalized`
unfoldable pub to_normalized : SourceRecord → Text → NormalizedLead
to_normalized r name = record {
  source = record { name = name; url = r.source_url };
  collected_at = r.collected_at;
  company_name = r.normalized.company_name;
  contact_name = r.normalized.contact_name;
  website = r.normalized.website;
  website_domain = r.normalized.website_domain;
  email = r.normalized.email;
  phone = r.normalized.phone;
  address = r.normalized.address;
  city = r.normalized.city;
  country = r.normalized.country;
  extra = r.normalized.extra;
}

abbrev candidate_of : SourceRecord → Source → Candidate
candidate_of r s = record {
  lead = to_normalized r s.name;
  origin = str r.id;
  priority = s.priority;
}

-- the join with the sources: a record without its source gives no row
unfoldable pub joined : List Source → List SourceRecord → List Candidate
joined sources [] = []
joined sources (r ∷ rs) =
    let rest = joined sources rs in
    elim (find (λ s. s.id == r.source_id) sources) [
      | none ↦ rest
      | some s ↦ candidate_of r s ∷ rest
    ]

abbrev pub of_lead : ℕ → SourceRecord → Bool
of_lead id r = elim r.lead_id [ none ↦ false | some i ↦ i == id ]

unfoldable pub candidates_for : ℕ → Db → List Candidate
candidates_for id db = joined db.sources.rows (select (of_lead id) db.records.rows)

pub record Link : Type 0 where
  pub lead_id : ℕ
  pub source_record_id : ℕ
  pub rule : Text
  pub confidence : Ratio
  pub needs_review : Bool

abbrev merge_row : Link → ℕ → LeadMerge
merge_row k id = record {
  id = id;
  lead_id = k.lead_id;
  source_record_id = k.source_record_id;
  rule = k.rule;
  confidence = k.confidence;
  needs_review = k.needs_review;
}

abbrev pub is_pair : Link → LeadMerge → Bool
is_pair k m = m.lead_id == k.lead_id && m.source_record_id == k.source_record_id

-- a pair that is linked already is given the new rule, and its record stays where it was
unfoldable pub link : Link → Bool → Db → Db
link k claim db = elim (find (is_pair k) db.merges.rows) [
  | some m ↦ record db {
    merges =
        update_rows (λ x. x.id == m.id)
          (λ x. record x {
            rule = k.rule;
            confidence = k.confidence;
            needs_review = k.needs_review;
          })
          db.merges;
  }
  | none ↦ record db {
    merges = add (merge_row k) db.merges;
    records =
        if claim
        then update_rows (λ r. r.id == k.source_record_id)
            (λ r. record r { lead_id = some k.lead_id }) db.records
        else db.records;
  }
]
