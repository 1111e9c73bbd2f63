-- ===== src/Repositories/Leads/Cascade.antt =====
-- `delete` of app/repositories/leads.py, with the foreign keys of app/db/models.py: nothing is left
-- that refers to the lead.
use lead_pipe.Prelude.{
  ℕ, ◌≡◌, Bool, true, ◌&&◌, none, some, arith, ◌==◌, any_of_mem, Option-cases, inl, inr,
}
use lead_pipe.Prelude.Tables.{count, find_sound, find-delete_self, count-find, count-delete_covered}
use lead_pipe.Db.{Db, Lead, SourceRecord}
use lead_pipe.Repositories.Leads.{
  get, delete, delete_where, of_lead, lead_gone, record_gone, merge_gone,
}

-- Nothing of the database refers to the lead.
pub record IsGone (id : ℕ) (db : Db) : Type 0 where
  pub no_lead : get id db ≡ none
  pub no_record : count (of_lead id) db.records.rows ≡ 0
  pub no_merge : count (λ m. m.lead_id == id) db.merges.rows ≡ 0

abbrev the_lead : ℕ → Lead → Bool
the_lead id l = l.id == id

module _ (id : ℕ) (db : Db) (l : Lead) (found : get id db ≡ some l) where
  is_deleted : (k : ℕ) → k ≡ id → lead_gone (the_lead id) db k ≡ true
  unfolding get
  is_deleted k e =
      let (m, q) = find_sound (the_lead id) db.leads.rows l found in
      any_of_mem (λ x. the_lead id x && x.id == k) l db.leads.rows m (ground arith)

  record_is_deleted :
      (r : SourceRecord) → of_lead id r ≡ true → record_gone (the_lead id) db r ≡ true
  record_is_deleted r x = elim (Option-cases r.lead_id) [
    | inl e ↦ absurd (ground arith)
    | inr (k, e) ↦ rw e (is_deleted k (ground arith))
  ]

  -- When a lead is deleted that is there, the call says so, and afterwards the table has no lead
  -- with its id, no source record that belongs to it, and no link to it.
  pub delete-IsGone : ((delete id db).0 ≡ true) × IsGone id (delete id db).1
  unfolding delete delete_where get
  delete-IsGone = (
    ground (arith, count-find (the_lead id) db.leads.rows found),
    record {
      no_lead = find-delete_self (the_lead id) db.leads.rows;
      no_record =
          count-delete_covered (record_gone (the_lead id) db) (of_lead id) db.records.rows
            record_is_deleted;
      no_merge =
          count-delete_covered (merge_gone (the_lead id) db) (λ m. m.lead_id == id) db.merges.rows
            (λ m x. ground (arith, is_deleted m.lead_id));
    },
  )
