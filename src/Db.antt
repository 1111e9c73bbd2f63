-- ===== src/Db.antt =====
-- app/db/models.py: the tables, as lists of rows with the sequence that numbers them. Columns that
-- the program never reads back (`created_at` of most tables, `updated_at`) are left out.
pub mod Tables
pub mod Platform
pub mod Health
use lead_pipe.Prelude.{ℕ, Bool, Option, List}
use lead_pipe.Prelude.Texts.{Text}
use lead_pipe.Prelude.Ints.{ℤ}
use lead_pipe.Prelude.Ratios.{Ratio}
use lead_pipe.Domain.{Dict, Json, FieldValidation, ValidationStatus}
use Tables.{Table}

pub data SuppressionKind : Type 0 where
  email domain : SuppressionKind

pub data JobStatus : Type 0 where
  pending running completed failed cancelled : JobStatus

pub record Source : Type 0 where
  pub id : ℕ
  pub name : Text
  pub type : Text
  pub priority : ℤ
  pub enabled : Bool
  pub config : Dict Json

pub record Lead : Type 0 where
  pub id : ℕ
  pub company_name : Option Text
  pub contact_name : Option Text
  pub website : Option Text
  pub website_domain : Option Text
  pub email : Option Text
  pub phone : Option Text
  pub address : Option Text
  pub city : Option Text
  pub country : Option Text
  pub name_slug : Option Text
  pub location_key : Option Text
  pub validation_status : ValidationStatus
  pub extra : Dict (Option Text)
  pub first_seen_at : ℕ
  pub last_seen_at : ℕ
  pub created_at : ℕ

pub record CollectionJob : Type 0 where
  pub id : ℕ
  pub source_id : ℕ
  pub status : JobStatus
  pub error : Option Text
  pub started_at : Option ℕ
  pub finished_at : Option ℕ
  pub attempts : ℕ
  pub max_attempts : ℕ
  pub heartbeat_at : Option ℕ
  pub run_after : Option ℕ
  pub claimed_by : Option Text
  pub created_at : ℕ

pub record CollectionJobResult : Type 0 where
  pub id : ℕ
  pub job_id : ℕ
  pub collected : ℕ
  pub valid : ℕ
  pub invalid : ℕ
  pub duplicates : ℕ
  pub new_leads : ℕ
  pub errors : ℕ
  pub suppressed : ℕ

-- `normalized` is the payload of the normalized lead, without `source` and `collected_at`
pub record Payload : Type 0 where
  pub company_name : Option Text
  pub contact_name : Option Text
  pub website : Option Text
  pub website_domain : Option Text
  pub email : Option Text
  pub phone : Option Text
  pub address : Option Text
  pub city : Option Text
  pub country : Option Text
  pub extra : Dict (Option Text)

pub record SourceRecord : Type 0 where
  pub id : ℕ
  pub source_id : ℕ
  pub job_id : Option ℕ
  pub lead_id : Option ℕ
  pub record_key : Text
  pub external_id : Option Text
  pub source_url : Option Text
  pub raw : Json
  pub normalized : Payload
  pub fp_email : Option Text
  pub fp_domain : Option Text
  pub fp_phone : Option Text
  pub fp_name_slug : Option Text
  pub fp_location : Option Text
  pub validation_status : ValidationStatus
  pub validation_fields : Dict FieldValidation
  pub collected_at : ℕ

pub record LeadMerge : Type 0 where
  pub id : ℕ
  pub lead_id : ℕ
  pub source_record_id : ℕ
  pub rule : Text
  pub confidence : Ratio
  pub needs_review : Bool

pub record Suppression : Type 0 where
  pub id : ℕ
  pub kind : SuppressionKind
  pub value : Text
  pub reason : Option Text

pub record Db : Type 0 where
  pub sources : Table Source
  pub jobs : Table CollectionJob
  pub results : Table CollectionJobResult
  pub records : Table SourceRecord
  pub leads : Table Lead
  pub merges : Table LeadMerge
  pub suppressions : Table Suppression

abbrev pub empty_table {ℓ} : {A : Type ℓ} → Table A
empty_table = record { rows = List.[]; next_id = 1 }

abbrev pub empty_db : Db
empty_db = record {
  sources = empty_table;
  jobs = empty_table;
  results = empty_table;
  records = empty_table;
  leads = empty_table;
  merges = empty_table;
  suppressions = empty_table;
}
