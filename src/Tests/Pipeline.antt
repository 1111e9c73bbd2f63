-- ===== src/Tests/Pipeline.antt =====
-- The theorems on app/pipeline, app/api, app/repositories, app/normalization and app/validation at
-- concrete inputs.
use lead_pipe.Prelude.{arith, ◌+◌, ◌≡◌, refl, true, ◌||◌, ◌&&◌, none, some, [], ◌∷◌, if◌then◌else◌}
use lead_pipe.Prelude.Unicode.{ascii}
use lead_pipe.Prelude.Ints.{pos}
use lead_pipe.Prelude.Texts.{
  codes, contains, starts_with, truthy, text_eq, strip_by, is_space, mem_text, remove_prefix,
  split_on, lstrip_by, rstrip_by,
}
use lead_pipe.Prelude.Decimal.{str, decimal}
use lead_pipe.Prelude.Orders.{insert_by, sort_by}
use lead_pipe.Normalization.Fields.{normalize_email, bare_email}
use lead_pipe.Normalization.Url.{
  normalize_url, extract_domain, url_of, from_candidate, hostname_match, is_hostname, is_label,
  kept_params, label_end, rebuilt,
}
use lead_pipe.Normalization.Record.{normalize_record}
use lead_pipe.Prelude.Tables.{find, select, count, delete}
use lead_pipe.Domain.{
  LeadFilter, get, RawRecord, FieldValidation, ValidationStatus, Json, is_unknown_status,
}
use lead_pipe.Tests.Instances.{phones, emails, urls, platform}
use lead_pipe.Config.{AppConfig}
use lead_pipe.Db.{Db, Lead, empty_db, SuppressionKind}
use lead_pipe.Normalization.Cleaning.{collapse, clean_text, clean_text-IsClean, IsClean}
use lead_pipe.Validation.Lead.{rollup, field_table, rollup_lem, is_invalid}
use lead_pipe.Repositories.Leads as Leads
use lead_pipe.Repositories.Leads.Pages.{iter_export, conditions, iter_export-select}
use lead_pipe.Repositories.Leads.Cascade.{IsGone, delete-IsGone}
use lead_pipe.Repositories.Suppressions.{load, blocks, add_for_lead, add_entry, normalize_value}
use lead_pipe.Pipeline.Stats.{no_stats, add_collected, add_suppressed}
use lead_pipe.Pipeline.Ingest.{Context, ingest, done}
use lead_pipe.Pipeline.Run.{
  ingest_item, rejected, collected, ingest_all, Collection, run_collection,
}
use lead_pipe.Pipeline.Run.Accounts.{EndsBalanced, run_collection-EndsBalanced, ingest_all-exact}
use lead_pipe.Api.{DeletionResult, delete_lead}
use lead_pipe.Api.Erasure.{delete_lead-blocks_email, delete_lead-blocks_domain}

clean_text-IsClean_example : IsClean (codes "Acme Oy") × (truthy (codes "Acme Oy") ≡ true)
unfolding clean_text strip_by collapse is_space
clean_text-IsClean_example = clean_text-IsClean (some (codes "  Acme   Oy ")) (codes "Acme Oy") refl

abbrev good : FieldValidation
good = record { status = ValidationStatus.valid; reason = none }

abbrev missing : FieldValidation
missing = record { status = ValidationStatus.unknown; reason = some (codes "missing") }

abbrev bad : FieldValidation
bad = record { status = ValidationStatus.invalid; reason = some (codes "malformed") }

rollup_lem_example : rollup (field_table good missing missing good bad) ≡ (
    if is_invalid good || (is_invalid missing || (is_invalid missing || is_invalid good))
    then ValidationStatus.invalid
    else if is_unknown_status ValidationStatus.unknown
        && (is_unknown_status ValidationStatus.unknown && is_unknown_status ValidationStatus.valid)
    then ValidationStatus.unknown
    else ValidationStatus.valid)
rollup_lem_example = rollup_lem good missing missing good bad

abbrev raw : RawRecord
raw = record {
  source = record { name = codes "web"; url = none };
  fields =
      (codes "company_name", some (codes "Acme Oy"))
      ∷ (codes "email", some (codes "Info@Acme.fi"))
      ∷ (codes "website", some (codes "acme.fi"))
      ∷ [];
  raw = Json.null;
  collected_at = 5000000;
}

abbrev context : Context
context = record { source_id = 1; priority = pos 3; region = none; job_id = 1; now = 6000000 }

abbrev pub config : AppConfig
config = record {
  region = none;
  sources =
      record {
        name = codes "web";
        type = codes "html";
        enabled = true;
        priority = pos 3;
        region = none;
        mapping = [];
        schedule = none;
        options = [];
      }
      ∷ [];
}

abbrev collection : Collection
collection = record { items = collected raw ∷ rejected (codes "no row") ∷ []; failure = none }

run_collection-EndsBalanced_example :
    EndsBalanced (run_collection config (codes "web") none collection 6000000 empty_db)
run_collection-EndsBalanced_example =
    run_collection-EndsBalanced config (codes "web") none collection 6000000 empty_db

abbrev lead : Lead
lead = record {
  id = 1;
  company_name = some (codes "Acme Oy");
  contact_name = none;
  website = some (codes "https://acme.fi/");
  website_domain = some (codes "acme.fi");
  email = some (codes "info@acme.fi");
  phone = none;
  address = none;
  city = none;
  country = none;
  name_slug = some (codes "acme");
  location_key = none;
  validation_status = ValidationStatus.valid;
  extra = [];
  first_seen_at = 5000000;
  last_seen_at = 5000000;
  created_at = 5000000;
}

abbrev pub stored : Db
stored = record empty_db { leads = record { rows = lead ∷ []; next_id = 2 } }

delete-IsGone_example : ((Leads.delete 1 stored).0 ≡ true) × IsGone 1 (Leads.delete 1 stored).1
unfolding Leads.get find
delete-IsGone_example = delete-IsGone 1 stored lead refl

abbrev deletion : DeletionResult
deletion = record {
  deleted = true;
  suppressed =
      record {
        id = 1;
        kind = SuppressionKind.email;
        value = codes "info@acme.fi";
        reason = some (codes "lead 1 deleted");
      }
      ∷ record {
        id = 2;
        kind = SuppressionKind.domain;
        value = codes "acme.fi";
        reason = some (codes "lead 1 deleted");
      }
      ∷ [];
}

abbrev erased : Db
erased = record stored {
  leads = record { rows = []; next_id = 2 };
  suppressions = record { rows = deletion.suppressed; next_id = 3 };
}

lead_found : Leads.get 1 stored ≡ some lead
unfolding Leads.get find
lead_found = refl

lead_deleted : delete_lead 1 true stored ≡ some (deletion, erased)
unfolding delete_lead Leads.get find Leads.delete add_for_lead Leads.delete_where add_entry count
    normalize_value str delete normalize_email extract_domain clean_text normalize_url strip_by
    collapse is_space bare_email url_of remove_prefix contains from_candidate hostname_match
    is_hostname split_on is_label kept_params label_end rebuilt decimal insert_by sort_by select
    lstrip_by mem_text rstrip_by starts_with text_eq
lead_deleted = refl

same_email : normalize_value SuppressionKind.email (codes "info@acme.fi") ≡ codes "info@acme.fi"
unfolding normalize_value normalize_email extract_domain clean_text normalize_url strip_by collapse
    is_space bare_email url_of remove_prefix contains from_candidate hostname_match is_hostname
    split_on is_label kept_params label_end rebuilt decimal insert_by sort_by select lstrip_by
    mem_text rstrip_by starts_with text_eq find
same_email = refl

same_domain : normalize_value SuppressionKind.domain (codes "acme.fi") ≡ codes "acme.fi"
unfolding normalize_value normalize_email extract_domain clean_text normalize_url strip_by collapse
    is_space bare_email url_of remove_prefix contains from_candidate hostname_match is_hostname
    split_on is_label kept_params label_end rebuilt decimal insert_by sort_by select lstrip_by
    mem_text rstrip_by starts_with text_eq find
same_domain = refl

email_of_raw : (normalize_record raw none).email ≡ some (codes "info@acme.fi")
unfolding normalize_record get normalize_email extract_domain clean_text normalize_url strip_by
    collapse is_space bare_email url_of remove_prefix contains from_candidate hostname_match
    is_hostname split_on is_label kept_params label_end rebuilt decimal insert_by sort_by select
    lstrip_by mem_text rstrip_by starts_with text_eq find
email_of_raw = refl

domain_of_raw : (normalize_record raw none).website_domain ≡ some (codes "acme.fi")
unfolding normalize_record get normalize_email extract_domain clean_text normalize_url strip_by
    collapse is_space bare_email url_of remove_prefix contains from_candidate hostname_match
    is_hostname split_on is_label kept_params label_end rebuilt decimal insert_by sort_by select
    lstrip_by mem_text rstrip_by starts_with text_eq find
domain_of_raw = refl

delete_lead-blocks_email_example :
    ingest context (load erased) raw no_stats erased
    ≡ done (add_suppressed (add_collected no_stats)) erased
delete_lead-blocks_email_example =
    delete_lead-blocks_email 1 stored erased lead (codes "info@acme.fi") {r = deletion} context raw
      no_stats erased lead_found lead_deleted refl refl same_email email_of_raw

delete_lead-blocks_domain_example :
    ingest context (load erased) raw no_stats erased
    ≡ done (add_suppressed (add_collected no_stats)) erased
delete_lead-blocks_domain_example =
    delete_lead-blocks_domain 1 stored erased lead (codes "acme.fi") {r = deletion} context raw
      no_stats erased lead_found lead_deleted refl refl same_domain domain_of_raw

ingest_all-exact_example :
    let s = (ingest_all context (load erased) (collected raw ∷ []) no_stats erased).0 in
    (s.collected ≡ s.suppressed + s.valid + s.invalid + s.unknown)
    × (s.valid + s.invalid + s.unknown ≡ s.duplicates + s.new_leads)
unfolding ingest_all ingest_item ingest blocks normalize_record normalize_email clean_text get
    text_eq strip_by collapse is_space bare_email remove_prefix mem_text load select
ingest_all-exact_example = ingest_all-exact context (load erased) (collected raw ∷ []) erased refl

abbrev every_lead : LeadFilter
every_lead = record {
  source = none;
  country = none;
  city = none;
  validation_status = none;
  created_from = none;
  created_to = none;
}

iter_export-select_example :
    iter_export 2 every_lead 500 stored ≡ select (conditions every_lead stored) stored.leads.rows
iter_export-select_example =
    iter_export-select 2 every_lead 500 stored (omega arith) (omega arith, tt) (tt, tt)
      (omega arith)
