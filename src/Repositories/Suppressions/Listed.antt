-- ===== src/Repositories/Suppressions/Listed.antt =====
-- What app/repositories/suppressions.py has listed stays listed.
use lead_pipe.Prelude.{
  ℕ, ◌≡◌, refl, true, ◌||◌, Option, none, some, List, [], ◌∷◌, ◌++◌, arith, inl, inr, Option-cases,
  Bool-cases,
}
use lead_pipe.Prelude.Unicode.{Unicode}
use lead_pipe.Prelude.Texts.{Text, text_eq_comm, text_eq_self, mem_text, truthy}
use lead_pipe.Prelude.Tables.{select, find}
use lead_pipe.Libraries.{Urls}
use lead_pipe.Db.{Db, Suppression, SuppressionKind}
use lead_pipe.Repositories.Suppressions.{
  same_kind, values, is_entry, new_entry, normalize_value, add_entry, add_if, add_for_lead,
}

-- the value is one of those that `load` reads for the kind
abbrev pub IsListed : SuppressionKind → Text → List Suppression → Type 0
IsListed k v rows = mem_text v (values k rows) ≡ true

mem_text-values-append :
    (k : SuppressionKind) (v : Text) (xs ys : List Suppression)
    → mem_text v (values k (xs ++ ys)) ≡ (mem_text v (values k xs) || mem_text v (values k ys))
unfolding select mem_text
mem_text-values-append k v [] ys = refl
mem_text-values-append k v (x ∷ xs) ys = elim (Bool-cases (same_kind x.kind k)) [
  | inl e ↦ rw e (ground (arith, mem_text-values-append k v xs ys))
  | inr e ↦ rw e (mem_text-values-append k v xs ys)
]

IsListed-find :
    (k : SuppressionKind) (v : Text) (rows : List Suppression) {s : Suppression}
    → find (is_entry k v) rows ≡ some s
    → IsListed k v rows
unfolding select mem_text find
IsListed-find k v [] h = absurd (ground arith)
IsListed-find k v (x ∷ xs) {s} h = elim (Bool-cases (same_kind x.kind k)) [
  | inl e ↦ rw e (ground (arith, IsListed-find k v xs {s = s}, text_eq_comm x.value v))
  | inr e ↦ rw e (ground (arith, IsListed-find k v xs {s = s}))
]

same_kind_self : (k : SuppressionKind) → same_kind k k ≡ true
same_kind_self SuppressionKind.email = refl
same_kind_self SuppressionKind.domain = refl

IsListed-new :
    (k : SuppressionKind) (v : Text) (reason : Option Text) (id : ℕ)
    → IsListed k v (new_entry k v reason id ∷ [])
unfolding select mem_text
IsListed-new k v reason id = rw (same_kind_self k, text_eq_self v) refl

append-new :
    (k : SuppressionKind) (v : Text) (reason : Option Text) (id : ℕ) (rows : List Suppression)
    → IsListed k v (rows ++ new_entry k v reason id ∷ [])
append-new k v reason id rows = ground (
  arith,
  mem_text-values-append k v rows (new_entry k v reason id ∷ []),
  IsListed-new k v reason id,
)

module _ ⦃u : Unicode⦄ ⦃w : Urls⦄ where
  pub IsListed-add_entry :
      (k : SuppressionKind) (v : Text) (reason : Option Text) (db : Db)
      → IsListed k (normalize_value k v) (add_entry k v reason db).1.suppressions.rows
  unfolding add_entry mem_text
  IsListed-add_entry k v reason db =
      let n = normalize_value k v in
      elim (Option-cases (find (is_entry k n) db.suppressions.rows)) [
        | inl e ↦
            rw (add_entry, e) (append-new k n reason db.suppressions.next_id db.suppressions.rows)
        | inr (s, e) ↦ rw (add_entry, e) (IsListed-find k n db.suppressions.rows e)
      ]

  pub add_entry-IsListed :
      (k : SuppressionKind) (v : Text) (reason : Option Text) (j : SuppressionKind) (x : Text)
      (db : Db)
      → IsListed j x db.suppressions.rows
      → IsListed j x (add_entry k v reason db).1.suppressions.rows
  unfolding add_entry mem_text
  add_entry-IsListed k v reason j x db h =
      let n = normalize_value k v in
      let new = new_entry k n reason db.suppressions.next_id ∷ [] in
      elim (Option-cases (find (is_entry k n) db.suppressions.rows)) [
        | inl e ↦
            rw (add_entry, e)
              (ground (arith, mem_text-values-append j x db.suppressions.rows new, h))
        | inr (s, e) ↦ rw (add_entry, e) h
      ]

  -- After both contacts of a lead are added, each is listed.
  pub add_for_lead-IsListed_email :
      (e : Text) (domain : Option Text) (reason : Text) (db : Db)
      → truthy e ≡ true
      → IsListed SuppressionKind.email
          (normalize_value SuppressionKind.email e)
          (add_for_lead (some e) domain reason db).1.suppressions.rows
  unfolding add_for_lead
  add_for_lead-IsListed_email e none reason db t =
      rw t (IsListed-add_entry SuppressionKind.email e (some reason) db)
  add_for_lead-IsListed_email e (some d) reason db t = elim (Bool-cases (truthy d)) [
    | inl x ↦
        rw (t, x)
          (add_entry-IsListed SuppressionKind.domain d (some reason) SuppressionKind.email
            (normalize_value SuppressionKind.email e)
            (add_entry SuppressionKind.email e (some reason) db).1
            (IsListed-add_entry SuppressionKind.email e (some reason) db))
    | inr x ↦ rw (t, x) (IsListed-add_entry SuppressionKind.email e (some reason) db)
  ]

  pub add_for_lead-IsListed_domain :
      (email : Option Text) (d : Text) (reason : Text) (db : Db)
      → truthy d ≡ true
      → IsListed SuppressionKind.domain
          (normalize_value SuppressionKind.domain d)
          (add_for_lead email (some d) reason db).1.suppressions.rows
  unfolding add_for_lead
  add_for_lead-IsListed_domain email d reason db t = rw t (
      IsListed-add_entry SuppressionKind.domain d (some reason)
        (add_if SuppressionKind.email email reason db).1)
