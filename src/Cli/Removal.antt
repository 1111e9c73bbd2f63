-- ===== src/Cli/Removal.antt =====
-- `_suppress` of app/cli.py with `remove`: the entries that it deletes, one by one.
use mathlib.Core.List.{Memᴰ}
use mathlib.Core.Path.{subst}
use lead_pipe.Prelude.{
  ◌≡◌, ◌∙◌, refl, sym, ap, Bool, true, false, ◌||◌, List, [], ◌∷◌, arith, ◌==◌, any, any-false,
  any_of_mem, inl, inr, Bool-cases, Option,
}
use lead_pipe.Prelude.Unicode.{Unicode}
use lead_pipe.Prelude.Texts.{Text, text_eq}
use lead_pipe.Prelude.Tables.{select, select_sound, select_complete, delete}
use lead_pipe.Libraries.{Urls}
use lead_pipe.Db.{Db, Suppression, SuppressionKind}
use lead_pipe.Db.Tables.{Ascending, eq_of_id}
use lead_pipe.Repositories.Suppressions.{normalize_value, remove}
use lead_pipe.Cli.{remove_all, suppress}

module _ {A : Type 0} where
  delete-delete :
      (p q : A → Bool) (xs : List A) → delete q (delete p xs) ≡ delete (λ x. p x || q x) xs
  unfolding delete
  delete-delete p q [] = refl
  delete-delete p q (x ∷ xs) = elim (Bool-cases (p x)) [
    | inl e ↦ rw (e, delete-delete p q xs) refl
    | inr e ↦ elim (Bool-cases (q x)) [
      | inl f ↦ rw (e, f, delete-delete p q xs) refl
      | inr f ↦ rw (e, f, delete-delete p q xs) refl
    ]
  ]

  delete_none : (xs : List A) → delete (λ x. false) xs ≡ xs
  unfolding delete
  delete_none [] = refl
  delete_none (x ∷ xs) = ap (λ ys. x ∷ ys) (delete_none xs)

  delete-same :
      (p q : A → Bool) (xs : List A) → ((x : A) → Memᴰ x xs → p x ≡ q x) → delete p xs ≡ delete q xs
  unfolding delete
  delete-same p q [] h = refl
  delete-same p q (x ∷ xs) h =
      rw (h x (Memᴰ.head refl), delete-same p q xs (λ y m. h y (Memᴰ.tail m))) refl

remove_all-rows :
    (entries : List Suppression) (db : Db)
    → (remove_all entries db).suppressions.rows
      ≡ delete (λ s. any (λ (e : Suppression). s.id == e.id) entries) db.suppressions.rows
unfolding remove
remove_all-rows [] db = sym (delete_none db.suppressions.rows)
remove_all-rows (e ∷ entries) db =
    remove_all-rows entries (remove e.id db).1
    ∙ delete-delete (λ s. s.id == e.id) (λ s. any (λ (i : Suppression). s.id == i.id) entries)
        db.suppressions.rows

listed-any :
    (q : Suppression → Bool) (rows : List Suppression) (x : Suppression)
    → Ascending (λ s. s.id) rows
    → Memᴰ x rows
    → any (λ (e : Suppression). x.id == e.id) (select q rows) ≡ q x
listed-any q rows x rising m = elim (Bool-cases (q x)) [
  | inl e ↦
      any_of_mem (λ (i : Suppression). x.id == i.id) x (select q rows) (select_complete q rows m e)
        (ground arith)
      ∙ sym e
  | inr e ↦
      any-false (λ (i : Suppression). x.id == i.id) (select q rows)
        (λ i n.
          let (k, chosen) = select_sound q rows n in
          elim (Bool-cases (x.id == i.id)) [
            | inr f ↦ f
            | inl f ↦
                let same : x ≡ i = eq_of_id (λ s. s.id) rows rising m k (ground arith) in
                absurd (let no : q i ≡ false = subst (λ z. q z ≡ false) same e in cc)
          ])
      ∙ sym e
]

-- Where ids rise, removing a contact deletes the entries with its normalized value, of either kind, and
-- no other.
pub suppress-removes :
    ⦃u : Unicode⦄ ⦃w : Urls⦄ (kind : SuppressionKind) (value : Text) (reason : Option Text)
    (db : Db)
    → Ascending (λ s. s.id) db.suppressions.rows
    → (suppress kind value reason true db).1.suppressions.rows
      ≡ delete (λ s. text_eq s.value (normalize_value kind value)) db.suppressions.rows
unfolding suppress
suppress-removes kind value reason db rising =
    let q = λ (s : Suppression). text_eq s.value (normalize_value kind value) in
    remove_all-rows (select q db.suppressions.rows) db
    ∙ delete-same _ q db.suppressions.rows (λ x m. listed-any q db.suppressions.rows x rising m)
