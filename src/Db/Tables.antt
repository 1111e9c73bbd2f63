-- ===== src/Db/Tables.antt =====
-- A table: its rows and the sequence of its primary key (the columns `id` of app/db/models.py).
use mathlib.Core.List.{Memᴰ}
use lead_pipe.Prelude.{
  ℕ, ◌+◌, ◌≤◌, ◌<◌, ◌≡◌, sym, Bool, List, [], ◌∷◌, ◌++◌, arith, All, All-mem, All-append,
  Bool-cases, inl, inr, ap, ◌∙◌,
}
use lead_pipe.Prelude.Tables.{update, delete, All-update, All-delete}

pub record Table {ℓ} (A : Type ℓ) : Type ℓ where
  pub rows : List A
  pub next_id : ℕ

module _ {ℓ} {A : Type ℓ} where
  -- INSERT: the sequence gives the id
  abbrev pub add : (ℕ → A) → Table A → Table A
  add make t = record { rows = t.rows ++ make t.next_id ∷ []; next_id = t.next_id + 1 }

  -- UPDATE ... SET f WHERE p
  abbrev pub update_rows : (A → Bool) → (A → A) → Table A → Table A
  update_rows p f t = record t { rows = update p f t.rows }

  -- DELETE ... WHERE p
  abbrev pub delete_rows : (A → Bool) → Table A → Table A
  delete_rows p t = record t { rows = delete p t.rows }

module _ {ℓ} {A : Type ℓ} (id : A → ℕ) where
  abbrev pub Above : ℕ → List A → Type 0
  Above n xs = All (λ x. n < id x) xs

  abbrev pub Below : ℕ → List A → Type 0
  Below n xs = All (λ x. id x < n) xs

  abbrev pub Ascending : List A → Type 0
  Ascending [] = Unit
  Ascending (x ∷ xs) = Above (id x) xs × Ascending xs

  -- The ids rise with the rows, and the sequence is past them.
  pub record IsTable (t : Table A) : Type 0 where
    pub fresh : Below t.next_id t.rows
    pub rising : Ascending t.rows

  Below-weaken : (n m : ℕ) (xs : List A) → n ≤ m → Below n xs → Below m xs
  Below-weaken n m [] h b = tt
  Below-weaken n m (x ∷ xs) h b = (omega arith, Below-weaken n m xs h b.1)

  Ascending-snoc : (xs : List A) (y : A) → Below (id y) xs → Ascending xs → Ascending (xs ++ y ∷ [])
  Ascending-snoc [] y b a = (tt, tt)
  Ascending-snoc (x ∷ xs) y b a =
      (All-append (λ z. id x < id z) xs (y ∷ []) a.0 (b.0, tt), Ascending-snoc xs y b.1 a.1)

  pub add-IsTable :
      (make : ℕ → A) (t : Table A)
      → id (make t.next_id) ≡ t.next_id
      → IsTable t
      → IsTable (add make t)
  add-IsTable make t e h = record {
    fresh =
        All-append (λ x. id x < t.next_id + 1) t.rows (make t.next_id ∷ [])
          (Below-weaken t.next_id (t.next_id + 1) t.rows (omega arith) h.fresh) (omega arith, tt);
    rising = Ascending-snoc t.rows (make t.next_id) (rw e h.fresh) h.rising;
  }

  module _ (p : A → Bool) (f : A → A) (same : (x : A) → id (f x) ≡ id x) where
    Above-update : (n : ℕ) (xs : List A) → Above n xs → Above n (update p f xs)
    Above-update n xs = All-update (λ x. n < id x) p f xs (λ x h _. rw same h)

    Ascending-update : (xs : List A) → Ascending xs → Ascending (update p f xs)
    unfolding update
    Ascending-update [] a = tt
    Ascending-update (x ∷ xs) a = elim (Bool-cases (p x)) [
      | inl e ↦ rw e (rw same (Above-update (id x) xs a.0), Ascending-update xs a.1)
      | inr e ↦ rw e (Above-update (id x) xs a.0, Ascending-update xs a.1)
    ]

    pub update_rows-IsTable : (t : Table A) → IsTable t → IsTable (update_rows p f t)
    update_rows-IsTable t h = record {
      fresh = All-update (λ x. id x < t.next_id) p f t.rows (λ x k _. rw same k) h.fresh;
      rising = Ascending-update t.rows h.rising;
    }

  Ascending-delete : (p : A → Bool) (xs : List A) → Ascending xs → Ascending (delete p xs)
  unfolding delete
  Ascending-delete p [] a = tt
  Ascending-delete p (x ∷ xs) a = elim (Bool-cases (p x)) [
    | inl e ↦ rw e (Ascending-delete p xs a.1)
    | inr e ↦ rw e (All-delete (λ y. id x < id y) p xs a.0, Ascending-delete p xs a.1)
  ]

  pub delete_rows-IsTable : (p : A → Bool) (t : Table A) → IsTable t → IsTable (delete_rows p t)
  delete_rows-IsTable p t h = record {
    fresh = All-delete (λ x. id x < t.next_id) p t.rows h.fresh;
    rising = Ascending-delete p t.rows h.rising;
  }

  -- An id names one row.
  pub eq_of_id :
      {x y : A} (xs : List A) → Ascending xs → Memᴰ x xs → Memᴰ y xs → id x ≡ id y → x ≡ y
  eq_of_id [] a m n e = elim m [ ]
  eq_of_id (z ∷ xs) a (Memᴰ.head p) (Memᴰ.head q) e = p ∙ sym q
  eq_of_id (z ∷ xs) a (Memᴰ.head p) (Memᴰ.tail n) e =
      absurd (omega (arith, All-mem (λ y. id z < id y) xs a.0 n, ap id p))
  eq_of_id (z ∷ xs) a (Memᴰ.tail m) (Memᴰ.head q) e =
      absurd (omega (arith, All-mem (λ y. id z < id y) xs a.0 m, ap id q))
  eq_of_id (z ∷ xs) a (Memᴰ.tail m) (Memᴰ.tail n) e = eq_of_id xs a.1 m n e
