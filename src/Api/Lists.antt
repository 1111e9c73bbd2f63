-- ===== src/Api/Lists.antt =====
-- The handlers of app/api/routes.py that read, with the parameters that app/api/deps.py gives them.
pub mod Cursors
pub mod One
use lead_pipe.Prelude.{
  ℕ, ◌-◌, min, Bool, true, false, Option, none, some, List, [], ◌∷◌, map, ◌==◌, ltb, length,
  if◌then◌else◌,
}
use lead_pipe.Prelude.Unicode.{Unicode}
use lead_pipe.Prelude.Ints.{ℤ, pos, negsuc}
use lead_pipe.Prelude.Texts.{Text}
use lead_pipe.Domain.{LeadFilter, ValidationStatus}
use lead_pipe.Config.{AppConfig}
use lead_pipe.Db.{Db, JobStatus}
use lead_pipe.Db.Platform.{Platform}
use lead_pipe.Repositories.Sources.{by_name}
use lead_pipe.Repositories.Jobs.{JobRow}
use lead_pipe.Repositories.Jobs as Jobs
use lead_pipe.Repositories.Leads.Pages.{LeadExport, exported, page}
use lead_pipe.Repositories.Leads.Provenance.{provenance}
use lead_pipe.Api.Schemas.{
  LeadOut, lead_out, LeadDetail, lead_detail, Page, JobOut, job_out, SourceOut, source_out,
  configured_out, SuppressionOut, suppression_out,
}
use lead_pipe.Repositories.Suppressions.{list_all}
use lead_pipe.Db.Health.{Probes, Readiness, check_readiness, is_ready}

-- the settings that the handlers read
pub record Settings : Type 0 where
  pub api_key : Option Text
  pub default_page_size : ℕ
  pub max_page_size : ℕ

-- `page_size`; `none` is the answer 422
unfoldable pub page_size : Settings → Option ℤ → Option ℕ
page_size settings none = some settings.default_page_size
page_size settings (some (negsuc n)) = none
page_size settings (some (pos n)) = if ltb n 1 then none else some (min n settings.max_page_size)

-- `lead_filters`
abbrev pub lead_filters :
    Option Text → Option Text → Option Text → Option ValidationStatus → LeadFilter
lead_filters source country city status = record {
  source = source;
  country = country;
  city = city;
  validation_status = status;
  created_from = none;
  created_to = none;
}

-- `LeadFilter()`
abbrev pub no_filter : LeadFilter
no_filter = lead_filters none none none none

abbrev pub last {ℓ} : {A : Type ℓ} → List A → Option A
last [] = none
last (x ∷ []) = some x
last (x ∷ y ∷ ys) = last (y ∷ ys)

-- the answer, unless `items[-1]` raises, where the page is full and is empty
abbrev pub page_of {ℓ} : {A : Type ℓ} → (A → ℕ) → ℕ → List A → Option (Page A)
page_of id limit items =
    if length items == limit
    then elim (last items) [
      | none ↦ none
      | some i ↦ some (record { items = items; limit = limit; next_cursor = some (id i) })
    ]
    else some (record { items = items; limit = limit; next_cursor = none })

module _ ⦃u : Unicode⦄ ⦃g : Platform⦄ where
  unfoldable pub list_leads : LeadFilter → ℕ → ℕ → Db → Option (Page LeadOut)
  list_leads filters limit cursor db =
      page_of (λ l. l.id) limit (map (λ l. lead_out (exported db l)) (page filters limit cursor db))

  abbrev pub detailed : ℕ → Db → List LeadExport → Option LeadDetail
  detailed lead_id db [] = none
  detailed lead_id db (row ∷ rows) =
      if row.lead.id == lead_id
      then some (lead_detail row.lead row.sources (provenance lead_id db))
      else none

  -- `none` is the answer 404; ids start from one, so that no lead has an id that is not above 0
  unfoldable pub get_lead : ℕ → Db → Option LeadDetail
  get_lead lead_id db = detailed lead_id db (map (exported db) (page no_filter 1 (lead_id - 1) db))

abbrev row_out : JobRow → JobOut
row_out row = job_out row.job row.source row.result

unfoldable pub list_jobs : ℕ → Option ℕ → Option JobStatus → Option Text → Db → Option (Page JobOut)
list_jobs limit cursor status source db =
    page_of (λ j. j.id) limit (map row_out (Jobs.page limit cursor status source db))

unfoldable pub get_job : ℕ → Db → Option JobOut
get_job job_id db = elim (Jobs.detail job_id db) [ none ↦ none | some row ↦ some (row_out row) ]

unfoldable pub list_sources : AppConfig → Db → List SourceOut
list_sources config db =
    map (λ item. elim (by_name item.name db) [ none ↦ configured_out item | some s ↦ source_out s ])
      config.sources

unfoldable pub list_suppressions : ⦃g : Platform⦄ → Db → List SuppressionOut
list_suppressions db = map suppression_out (list_all db)

-- `ready`: whether the answer is 200 and not 503, with its body
unfoldable pub ready : Probes → Bool × Readiness
ready probes = let r = check_readiness probes in (is_ready r, r)
