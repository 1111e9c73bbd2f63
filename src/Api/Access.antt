-- ===== src/Api/Access.antt =====
-- The requests of app/api/routes.py, and the key that app/api/deps.py asks for before those that change
-- anything. The bodies are checked as app/api/schemas.py bounds them.
use lead_pipe.Prelude.{
  ℕ, ◌≡◌, refl, Bool, true, false, ◌&&◌, Option, none, some, List, leb, length, inl, inr,
  Bool-cases, if◌then◌else◌, map,
}
use lead_pipe.Prelude.Unicode.{Unicode}
use lead_pipe.Prelude.Ints.{ℤ}
use lead_pipe.Prelude.Texts.{Text, codes, opt_text_eq, truthy}
use lead_pipe.Domain.{LeadFilter}
use lead_pipe.Libraries.{Urls, Formats}
use lead_pipe.Config.{AppConfig}
use lead_pipe.Db.{Db, JobStatus, SuppressionKind}
use lead_pipe.Db.Platform.{Platform}
use lead_pipe.Exports.{export_leads}
use lead_pipe.Api.{delete_lead, create_job, create_suppression, delete_suppression}
use lead_pipe.Api.Schemas.{
  LeadOut, LeadDetail, Page, JobOut, job_out, SourceOut, SuppressionOut, suppression_out,
}
use lead_pipe.Api.Lists.{
  Settings, page_size, list_leads, get_lead, list_jobs, get_job, list_sources, list_suppressions,
  ready,
}
use lead_pipe.Db.Health.{Probes, Readiness}

-- `require_api_key`: whether it returns, and does not answer 401
unfoldable pub has_access : Settings → Option Text → Bool
has_access settings given = elim settings.api_key [
  | none ↦ true
  | some expected ↦ if truthy expected then opt_text_eq given (some expected) else true
]

pub data Request : Type 0 where
  health : Request
  -- with what the database and Alembic answer to it
  readiness : Probes → Request
  leads : LeadFilter → Option ℤ → ℕ → Request
  lead : ℕ → Request
  erase : ℕ → Bool → Request
  suppressions : Request
  suppress : SuppressionKind → Text → Option Text → Request
  allow : ℕ → Request
  jobs : Option ℤ → Option ℕ → Option JobStatus → Option Text → Request
  job : ℕ → Request
  collect : Text → Request
  sources : Request
  export : Text → LeadFilter → Request

pub data Answer : Type 0 where
  unauthorized not_found bad_request unprocessable server_error no_content : Answer
  alive : Text → Answer
  ready_answer : Bool → Readiness → Answer
  suppression_list : List SuppressionOut → Answer
  lead_page : Page LeadOut → Answer
  lead_answer : LeadDetail → Answer
  deletion : Bool → List SuppressionOut → Answer
  suppression : SuppressionOut → Answer
  job_page : Page JobOut → Answer
  job_answer : JobOut → Answer
  source_list : List SourceOut → Answer
  stream : List Text → Answer

-- `__version__`
abbrev pub version : Text
version = codes "0.1.0"

-- `Field(min_length=1, max_length=n)`
abbrev fits : ℕ → Text → Bool
fits n value = leb 1 (length value) && leb (length value) n

abbrev answer_or {ℓ} : {A : Type ℓ} → Answer → (A → Answer) → Option A → Answer
answer_or missing f none = missing
answer_or missing f (some a) = f a

module _ ⦃u : Unicode⦄ ⦃w : Urls⦄ ⦃g : Platform⦄ ⦃f : Formats⦄ (settings : Settings)
    (config : AppConfig) (now : ℕ) (export_pages : ℕ) where
  -- a request that has passed the check of its key
  unfoldable pub perform : Request → Db → Answer × Db
  perform health db = (alive version, db)
  perform (readiness probes) db = let (is_ok, body) = ready probes in (ready_answer is_ok body, db)
  perform (leads filters limit cursor) db = (
    elim (page_size settings limit) [
      | none ↦ unprocessable
      | some n ↦ answer_or server_error lead_page (list_leads filters n cursor db)
    ],
    db,
  )
  perform (lead id) db = (answer_or not_found lead_answer (get_lead id db), db)
  perform (erase id suppressing) db = elim (delete_lead id suppressing db) [
    | none ↦ (not_found, db)
    | some (result, db') ↦ (deletion result.deleted (map suppression_out result.suppressed), db')
  ]
  perform suppressions db = (suppression_list (list_suppressions db), db)
  perform (suppress kind value reason) db =
      let (entry, db') = create_suppression kind value reason db in
      if fits 320 value then (suppression (suppression_out entry), db') else (unprocessable, db)
  perform (allow id) db =
      let (removed, db') = delete_suppression id db in
      ((if removed then no_content else not_found), db')
  perform (jobs limit cursor status source) db = (
    elim (page_size settings limit) [
      | none ↦ unprocessable
      | some n ↦ answer_or server_error job_page (list_jobs n cursor status source db)
    ],
    db,
  )
  perform (job id) db = (answer_or not_found job_answer (get_job id db), db)
  perform (collect source) db =
      if fits 128 source
      then elim (create_job config source now db) [
        | none ↦ (bad_request, db)
        | some (queued, db') ↦ (job_answer (job_out queued source none), db')
      ]
      else (unprocessable, db)
  perform sources db = (source_list (list_sources config db), db)
  perform (export format filters) db = (
    elim (export_leads export_pages format filters 500 db) [
      | none ↦ bad_request
      | some (chunks, whole) ↦ stream chunks
    ],
    db,
  )

  -- the routes with `dependencies=[Depends(require_api_key)]`
  abbrev pub is_guarded : Request → Bool
  is_guarded (erase id suppressing) = true
  is_guarded (suppress kind value reason) = true
  is_guarded (allow id) = true
  is_guarded (collect source) = true
  is_guarded _ = false

  unfoldable pub handle : Option Text → Request → Db → Answer × Db
  handle given request db =
      let done = perform request db in
      if is_guarded request
      then (if has_access settings given then done else (unauthorized, db))
      else done

  -- a request that changes the database is one of the guarded ones
  reads-only :
      (request : Request) (db : Db) → is_guarded request ≡ false → (perform request db).1 ≡ db
  unfolding perform
  reads-only health db h = refl
  reads-only (readiness probes) db h = refl
  reads-only suppressions db h = refl
  reads-only (leads filters limit cursor) db h = refl
  reads-only (lead id) db h = refl
  reads-only (erase id suppressing) db h = cc
  reads-only (suppress kind value reason) db h = cc
  reads-only (allow id) db h = cc
  reads-only (jobs limit cursor status source) db h = refl
  reads-only (job id) db h = refl
  reads-only (collect source) db h = cc
  reads-only sources db h = refl
  reads-only (export format filters) db h = refl

  -- Where a key is set that is not empty, a request of any route that does not give this key leaves the
  -- database as it is.
  pub handle-needs_key :
      (expected : Text) (given : Option Text) (request : Request) (db : Db)
      → settings.api_key ≡ some expected
      → truthy expected ≡ true
      → opt_text_eq given (some expected) ≡ false
      → (handle given request db).1 ≡ db
  unfolding handle
  handle-needs_key expected given request db set full wrong =
      elim (Bool-cases (is_guarded request)) [
        | inr e ↦ rw (e, handle) (reads-only request db e)
        | inl e ↦
            let closed : has_access settings given ≡ false =
              unfold has_access in rw (set, full) wrong in
            rw (e, handle, closed) refl
      ]
