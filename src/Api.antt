-- ===== src/Api.antt =====
-- app/api/routes.py: the two handlers that change what is collected. What they answer is the value,
-- and `none` is the answer 404 or 400.
pub mod Erasure
pub mod Schemas
pub mod Lists
pub mod Access
use lead_pipe.Prelude.{ℕ, Bool, true, false, Option, none, some, List, [], ◌∷◌, ◌++◌, if◌then◌else◌}
use lead_pipe.Prelude.Unicode.{Unicode}
use lead_pipe.Prelude.Decimal.{str}
use lead_pipe.Prelude.Texts.{Text, codes}
use lead_pipe.Libraries.{Urls}
use lead_pipe.Config.{AppConfig}
use lead_pipe.Db.{Db, Lead, Suppression, SuppressionKind, CollectionJob}
use lead_pipe.Repositories.Leads as Leads
use lead_pipe.Repositories.Suppressions.{add_for_lead, add_entry, remove}
use lead_pipe.Jobs.Service.{enqueue}

pub record DeletionResult : Type 0 where
  pub deleted : Bool
  pub suppressed : List Suppression

-- f"lead {lead_id} deleted"
abbrev pub reason_of : ℕ → Text
reason_of lead_id = codes "lead " ++ (str lead_id ++ codes " deleted")

module _ ⦃u : Unicode⦄ ⦃w : Urls⦄ where
  abbrev pub suppress_contacts : Bool → Lead → ℕ → Db → List Suppression × Db
  suppress_contacts suppress lead lead_id db =
      if suppress
      then add_for_lead lead.email lead.website_domain (reason_of lead_id) db
      else ([], db)

  unfoldable pub delete_lead : ℕ → Bool → Db → Option (DeletionResult × Db)
  delete_lead lead_id suppress db = elim (Leads.get lead_id db) [
    | none ↦ none
    | some lead ↦
        let (added, db') = suppress_contacts suppress lead lead_id db in
        let (deleted, db'') = Leads.delete lead_id db' in
        some (record { deleted = deleted; suppressed = added }, db'')
  ]

unfoldable pub create_job : AppConfig → Text → ℕ → Db → Option (CollectionJob × Db)
create_job config source now db = enqueue config source now db

-- the entry, and the database that is committed
unfoldable pub create_suppression :
    ⦃u : Unicode⦄ ⦃w : Urls⦄ → SuppressionKind → Text → Option Text → Db → Suppression × Db
create_suppression kind value reason db = add_entry kind value reason db

-- `false` is the answer 404; what is removed is committed before it
unfoldable pub delete_suppression : ℕ → Db → Bool × Db
delete_suppression id db = remove id db
