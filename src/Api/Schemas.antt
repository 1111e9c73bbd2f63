-- ===== src/Api/Schemas.antt =====
-- app/api/schemas.py: what the handlers answer with. The time at which a suppression was made is left out,
-- as it is in the table.
use lead_pipe.Prelude.{ℕ, Bool, Option, none, some, List}
use lead_pipe.Prelude.Ints.{ℤ}
use lead_pipe.Prelude.Texts.{Text}
use lead_pipe.Domain.{Dict, ValidationStatus}
use lead_pipe.Config.{SourceConfig}
use lead_pipe.Db.{
  CollectionJob, CollectionJobResult, JobStatus, Lead, Source, Suppression, SuppressionKind,
}
use lead_pipe.Repositories.Leads.Pages.{LeadExport}
use lead_pipe.Repositories.Leads.Provenance.{Provenance}

pub record LeadOut : Type 0 where
  pub id : ℕ
  pub company_name : Option Text
  pub contact_name : Option Text
  pub website : Option Text
  pub website_domain : Option Text
  pub email : Option Text
  pub phone : Option Text
  pub address : Option Text
  pub city : Option Text
  pub country : Option Text
  pub validation_status : ValidationStatus
  pub sources : List Text
  pub first_seen_at : ℕ
  pub last_seen_at : ℕ

-- `LeadOut.of`
abbrev pub lead_out : LeadExport → LeadOut
lead_out row = record {
  id = row.lead.id;
  company_name = row.lead.company_name;
  contact_name = row.lead.contact_name;
  website = row.lead.website;
  website_domain = row.lead.website_domain;
  email = row.lead.email;
  phone = row.lead.phone;
  address = row.lead.address;
  city = row.lead.city;
  country = row.lead.country;
  validation_status = row.lead.validation_status;
  sources = row.sources;
  first_seen_at = row.lead.first_seen_at;
  last_seen_at = row.lead.last_seen_at;
}

-- the fields of `LeadOut`, `metadata` and the provenance, whose schema has the fields of `Provenance`
pub record LeadDetail : Type 0 where
  pub base : LeadOut
  pub metadata : Dict (Option Text)
  pub provenance : List Provenance

-- `LeadDetail.detail`
abbrev pub lead_detail : Lead → List Text → List Provenance → LeadDetail
lead_detail lead sources items = record {
  base = lead_out (record { lead = lead; sources = sources });
  metadata = lead.extra;
  provenance = items;
}

pub record Page {ℓ} (A : Type ℓ) : Type ℓ where
  pub items : List A
  pub limit : ℕ
  pub next_cursor : Option ℕ

pub record JobResultOut : Type 0 where
  pub collected : ℕ
  pub valid : ℕ
  pub invalid : ℕ
  pub duplicates : ℕ
  pub new_leads : ℕ
  pub errors : ℕ
  pub suppressed : ℕ

-- `JobResultOut.of`
abbrev pub job_result_out : CollectionJobResult → JobResultOut
job_result_out r = record {
  collected = r.collected;
  valid = r.valid;
  invalid = r.invalid;
  duplicates = r.duplicates;
  new_leads = r.new_leads;
  errors = r.errors;
  suppressed = r.suppressed;
}

pub record JobOut : Type 0 where
  pub id : ℕ
  pub source : Text
  pub status : JobStatus
  pub attempts : ℕ
  pub max_attempts : ℕ
  pub error : Option Text
  pub created_at : ℕ
  pub started_at : Option ℕ
  pub finished_at : Option ℕ
  pub result : Option JobResultOut

abbrev result_out : Option CollectionJobResult → Option JobResultOut
result_out none = none
result_out (some r) = some (job_result_out r)

-- `JobOut.of`
abbrev pub job_out : CollectionJob → Text → Option CollectionJobResult → JobOut
job_out job source result = record {
  id = job.id;
  source = source;
  status = job.status;
  attempts = job.attempts;
  max_attempts = job.max_attempts;
  error = job.error;
  created_at = job.created_at;
  started_at = job.started_at;
  finished_at = job.finished_at;
  result = result_out result;
}

pub record SourceOut : Type 0 where
  pub name : Text
  pub type : Text
  pub priority : ℤ
  pub enabled : Bool

-- `SourceOut.of`
abbrev pub source_out : Source → SourceOut
source_out s = record { name = s.name; type = s.type; priority = s.priority; enabled = s.enabled }

-- what `list_sources` makes of a source that is not stored
abbrev pub configured_out : SourceConfig → SourceOut
configured_out c = record {
  name = c.name;
  type = c.type;
  priority = c.priority;
  enabled = c.enabled;
}

pub record SuppressionOut : Type 0 where
  pub id : ℕ
  pub kind : SuppressionKind
  pub value : Text
  pub reason : Option Text

-- `SuppressionOut.of`
abbrev pub suppression_out : Suppression → SuppressionOut
suppression_out s = record { id = s.id; kind = s.kind; value = s.value; reason = s.reason }
