-- ===== src/Repositories/Records.antt =====
-- app/repositories/records.py: the collected records, one for each key of a source.
use lead_pipe.Prelude.{ℕ, Bool, true, false, ◌&&◌, Option, none, some, ◌==◌, if◌then◌else◌}
use lead_pipe.Prelude.Unicode.{Unicode}
use lead_pipe.Prelude.Texts.{Text, text_eq, truthy}
use lead_pipe.Prelude.Tables.{find}
use lead_pipe.Domain.{Json, NormalizedLead, LeadValidation}
use lead_pipe.Deduplication.Fingerprint.{fingerprints}
use lead_pipe.Db.{Db, Payload, SourceRecord}
use lead_pipe.Db.Tables.{add, update_rows}
use lead_pipe.Db.Platform.{Platform}

-- `_lead_payload`
unfoldable pub payload_of : NormalizedLead → Payload
payload_of lead = record {
  company_name = lead.company_name;
  contact_name = lead.contact_name;
  website = lead.website;
  website_domain = lead.website_domain;
  email = lead.email;
  phone = lead.phone;
  address = lead.address;
  city = lead.city;
  country = lead.country;
  extra = lead.extra;
}

unfoldable pub record_key : ⦃g : Platform⦄ → NormalizedLead → Option Text → Text
record_key ⦃g⦄ lead none = g.digest (payload_of lead)
record_key ⦃g⦄ lead (some id) = if truthy id then id else g.digest (payload_of lead)

unfoldable pub get : ℕ → Db → Option SourceRecord
get id db = find (λ r. r.id == id) db.records.rows

abbrev pub has_key : ℕ → Text → SourceRecord → Bool
has_key source_id key r = r.source_id == source_id && text_eq r.record_key key

unfoldable pub by_key : ℕ → Text → Db → Option SourceRecord
by_key source_id key db = find (has_key source_id key) db.records.rows

-- what `upsert` stores
pub record Incoming : Type 0 where
  pub source_id : ℕ
  pub lead : NormalizedLead
  pub validation : LeadValidation
  pub job_id : Option ℕ
  pub raw : Json
  pub external_id : Option Text

module _ ⦃u : Unicode⦄ where
  -- the row with everything assigned but its id, its key and its lead
  abbrev pub stored : Incoming → Text → ℕ → Option ℕ → SourceRecord
  stored i key id lead_id = record {
    id = id;
    source_id = i.source_id;
    job_id = i.job_id;
    lead_id = lead_id;
    record_key = key;
    external_id = i.external_id;
    source_url = i.lead.source.url;
    raw = i.raw;
    normalized = payload_of i.lead;
    fp_email = (fingerprints i.lead).email;
    fp_domain = (fingerprints i.lead).domain;
    fp_phone = (fingerprints i.lead).phone;
    fp_name_slug = (fingerprints i.lead).name_slug;
    fp_location = (fingerprints i.lead).location;
    validation_status = i.validation.status;
    validation_fields = i.validation.fields;
    collected_at = i.lead.collected_at;
  }

  -- the row, whether it is new, and the database
  unfoldable pub upsert : ⦃g : Platform⦄ → Incoming → Db → SourceRecord × Bool × Db
  upsert i db =
      let key = record_key i.lead i.external_id in
      elim (by_key i.source_id key db) [
        | none ↦ (
          stored i key db.records.next_id none,
          true,
          record db { records = add (λ id. stored i key id none) db.records },
        )
        | some r ↦ (
          stored i key r.id r.lead_id,
          false,
          record db {
            records = update_rows (λ x. x.id == r.id) (λ x. stored i key x.id x.lead_id) db.records;
          },
        )
      ]
