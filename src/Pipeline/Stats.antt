-- ===== src/Pipeline/Stats.antt =====
-- `RunStats` and `_persisted` of app/pipeline/runner.py
use lead_pipe.Prelude.{ℕ, ◌+◌}
use lead_pipe.Domain.{ValidationStatus}
use lead_pipe.Repositories.Jobs.{Results}

pub record RunStats : Type 0 where
  pub collected : ℕ
  pub valid : ℕ
  pub invalid : ℕ
  pub unknown : ℕ
  pub duplicates : ℕ
  pub new_leads : ℕ
  pub needs_review : ℕ
  pub suppressed : ℕ
  pub errors : ℕ

abbrev pub no_stats : RunStats
no_stats = record {
  collected = 0;
  valid = 0;
  invalid = 0;
  unknown = 0;
  duplicates = 0;
  new_leads = 0;
  needs_review = 0;
  suppressed = 0;
  errors = 0;
}

abbrev pub add_collected : RunStats → RunStats
add_collected s = record s { collected = s.collected + 1 }

abbrev pub add_suppressed : RunStats → RunStats
add_suppressed s = record s { suppressed = s.suppressed + 1 }

abbrev pub add_duplicate : RunStats → RunStats
add_duplicate s = record s { duplicates = s.duplicates + 1 }

abbrev pub add_new_lead : RunStats → RunStats
add_new_lead s = record s { new_leads = s.new_leads + 1 }

abbrev pub add_review : RunStats → RunStats
add_review s = record s { needs_review = s.needs_review + 1 }

abbrev pub add_error : RunStats → RunStats
add_error s = record s { errors = s.errors + 1 }

-- one counter for each outcome of the validation
abbrev pub add_status : ValidationStatus → RunStats → RunStats
add_status ValidationStatus.valid s = record s { valid = s.valid + 1 }
add_status ValidationStatus.invalid s = record s { invalid = s.invalid + 1 }
add_status ValidationStatus.unknown s = record s { unknown = s.unknown + 1 }

abbrev pub persisted : RunStats → Results
persisted s = record {
  collected = s.collected;
  valid = s.valid;
  invalid = s.invalid;
  duplicates = s.duplicates;
  new_leads = s.new_leads;
  errors = s.errors;
  suppressed = s.suppressed;
}
