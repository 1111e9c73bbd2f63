-- ===== src/Api/Erasure.antt =====
-- What `delete_lead` of app/api/routes.py promises of a lead that is erased: `_ingest` of
-- app/pipeline/runner.py does not store its contacts again.
use mathlib.Core.Path.{subst}
use lead_pipe.Db.Tables.{Table}
use lead_pipe.Prelude.{sym, ◌∙◌, ap, some_eq, ℕ, ◌≡◌, refl, true, some, Bool-cases, inl, inr}
use lead_pipe.Prelude.Unicode.{Unicode}
use lead_pipe.Prelude.Texts.{Text, truthy, mem_text}
use lead_pipe.Domain.{RawRecord, NormalizedLead}
use lead_pipe.Libraries.{Phones, Emails, Urls}
use lead_pipe.Normalization.Record.{normalize_record}
use lead_pipe.Db.{Db, Lead, Suppression, SuppressionKind}
use lead_pipe.Repositories.Leads as Leads
use lead_pipe.Api.{DeletionResult, delete_lead, reason_of}
use lead_pipe.Db.Platform.{Platform}
use lead_pipe.Repositories.Suppressions.{
  SuppressionList, blocks, listed, load, normalize_value, add_for_lead,
}
use lead_pipe.Repositories.Suppressions.Listed.{
  IsListed, add_for_lead-IsListed_email, add_for_lead-IsListed_domain,
}
use lead_pipe.Pipeline.Stats.{RunStats, add_collected, add_suppressed}
use lead_pipe.Pipeline.Ingest.{Context, ingest, done}

-- one of the two contacts of the lead is in the list
abbrev pub IsBlocked : NormalizedLead → SuppressionList → Type 0
IsBlocked lead l = (why : Text) × (blocks l lead ≡ some why)

IsBlocked-by_email :
    (lead : NormalizedLead) (l : SuppressionList) (e : Text)
    → lead.email ≡ some e
    → truthy e ≡ true
    → mem_text e l.emails ≡ true
    → IsBlocked lead l
unfolding blocks
IsBlocked-by_email lead l e h t m = rw (h, t, m) (_, refl)

IsBlocked-by_domain :
    (lead : NormalizedLead) (l : SuppressionList) (d : Text)
    → lead.website_domain ≡ some d
    → truthy d ≡ true
    → mem_text d l.domains ≡ true
    → IsBlocked lead l
unfolding blocks
IsBlocked-by_domain lead l d h t m = elim (Bool-cases (listed lead.email l.emails)) [
  | inl x ↦ rw x (_, refl)
  | inr x ↦ rw (x, h, t, m) (_, refl)
]

module _ ⦃u : Unicode⦄ ⦃p : Phones⦄ ⦃e : Emails⦄ ⦃w : Urls⦄ ⦃g : Platform⦄ where
  ingest_blocked :
      (c : Context) (l : SuppressionList) (raw : RawRecord) (stats : RunStats) (db : Db)
      → IsBlocked (normalize_record raw c.region) l
      → ingest c l raw stats db ≡ done (add_suppressed (add_collected stats)) db
  unfolding ingest
  ingest_blocked c l raw stats db (why, h) = rw (ingest, h) refl

  kept_by_delete : (id : ℕ) (db : Db) → (Leads.delete id db).1.suppressions ≡ db.suppressions
  unfolding Leads.delete Leads.delete_where
  kept_by_delete id db = refl

  -- the database that `delete_lead` leaves
  after_delete_lead :
      (id : ℕ) (before after : Db) (l : Lead) {r : DeletionResult}
      → Leads.get id before ≡ some l
      → delete_lead id true before ≡ some (r, after)
      → (Leads.delete id (add_for_lead l.email l.website_domain (reason_of id) before).1).1 ≡ after
  unfolding delete_lead
  after_delete_lead id before after l h k =
      ap (λ (x : DeletionResult × Db). x.1) (some_eq (rw (h, delete_lead) at k))

  suppressions-delete_lead :
      (id : ℕ) (before after : Db) (l : Lead) {r : DeletionResult}
      → Leads.get id before ≡ some l
      → delete_lead id true before ≡ some (r, after)
      → (add_for_lead l.email l.website_domain (reason_of id) before).1.suppressions
        ≡ after.suppressions
  suppressions-delete_lead id before after l h k =
      sym (kept_by_delete id (add_for_lead l.email l.website_domain (reason_of id) before).1)
      ∙ ap (λ (d : Db). d.suppressions) (after_delete_lead id before after l h k)

  -- When a lead is deleted whose email stays the same when it is normalized again, a later run that
  -- loads the suppressions of that moment stores nothing for a record with that email: the
  -- database is as it was, and the record is counted as collected and as suppressed.
  pub delete_lead-blocks_email :
      (id : ℕ) (before after : Db) (l : Lead) (address : Text) {r : DeletionResult} (c : Context)
      (raw : RawRecord) (stats : RunStats) (db : Db)
      → Leads.get id before ≡ some l
      → delete_lead id true before ≡ some (r, after)
      → l.email ≡ some address
      → truthy address ≡ true
      → normalize_value SuppressionKind.email address ≡ address
      → (normalize_record raw c.region).email ≡ some address
      → ingest c (load after) raw stats db ≡ done (add_suppressed (add_collected stats)) db
  unfolding load
  delete_lead-blocks_email id before after l address c raw stats db found deleted own t n h =
      let m : IsListed SuppressionKind.email address after.suppressions.rows =
        subst (λ (s : Table Suppression). IsListed SuppressionKind.email address s.rows)
          (suppressions-delete_lead id before after l found deleted)
          (rw own (
            subst
              (λ v.
                IsListed SuppressionKind.email v
                  (add_for_lead (some address) l.website_domain (reason_of id)
                    before).1.suppressions.rows)
              n (add_for_lead-IsListed_email address l.website_domain (reason_of id) before t))) in
      ingest_blocked c (load after) raw stats db
        (IsBlocked-by_email (normalize_record raw c.region) (load after) address h t m)

  -- When a lead is deleted whose website domain stays the same when it is normalized again, a later
  -- run that loads the suppressions of that moment stores nothing for a record with that domain,
  -- whatever its email: the database is as it was, and the record is counted as collected and as
  -- suppressed.
  pub delete_lead-blocks_domain :
      (id : ℕ) (before after : Db) (l : Lead) (domain : Text) {r : DeletionResult} (c : Context)
      (raw : RawRecord) (stats : RunStats) (db : Db)
      → Leads.get id before ≡ some l
      → delete_lead id true before ≡ some (r, after)
      → l.website_domain ≡ some domain
      → truthy domain ≡ true
      → normalize_value SuppressionKind.domain domain ≡ domain
      → (normalize_record raw c.region).website_domain ≡ some domain
      → ingest c (load after) raw stats db ≡ done (add_suppressed (add_collected stats)) db
  unfolding load
  delete_lead-blocks_domain id before after l domain c raw stats db found deleted own t n h =
      let m : IsListed SuppressionKind.domain domain after.suppressions.rows =
        subst (λ (s : Table Suppression). IsListed SuppressionKind.domain domain s.rows)
          (suppressions-delete_lead id before after l found deleted)
          (rw own (
            subst
              (λ v.
                IsListed SuppressionKind.domain v
                  (add_for_lead l.email (some domain) (reason_of id) before).1.suppressions.rows)
              n (add_for_lead-IsListed_domain l.email domain (reason_of id) before t))) in
      ingest_blocked c (load after) raw stats db
        (IsBlocked-by_domain (normalize_record raw c.region) (load after) domain h t m)
