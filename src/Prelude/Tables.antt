-- ===== src/Prelude/Tables.antt =====
-- Tables of rows, and the statements of SQL that the repositories send: SELECT, UPDATE, DELETE and
-- COUNT with a WHERE clause. A table is the list of its rows in the order of insertion.
use Prim.Native.Nat.{ℕ, suc, ◌+◌, ◌≤◌}
use mathlib.Core.Path.{◌≡◌, refl, subst}
use mathlib.Core.Logic.{inl, inr}
use mathlib.Core.Bool.{Bool, true, false}
use mathlib.Core.Option.{Option, none, some}
use mathlib.Core.List.{List, [], ◌∷◌, ◌++◌, Memᴰ}
use native.Mathlib.Omega.{arith}
use lead_pipe.Prelude.Tests.{if◌then◌else◌, Bool-cases}
use lead_pipe.Prelude.Lists.{All, any}

module _ {ℓ} {A : Type ℓ} where
  -- SELECT ... WHERE p
  unfoldable pub select : (A → Bool) → List A → List A
  select p [] = []
  select p (x ∷ xs) = let rest = select p xs in if p x then x ∷ rest else rest

  -- the first row of SELECT ... WHERE p, or `None`
  unfoldable pub find : (A → Bool) → List A → Option A
  find p [] = none
  find p (x ∷ xs) = let rest = find p xs in if p x then some x else rest

  -- UPDATE ... SET f WHERE p
  unfoldable pub update : (A → Bool) → (A → A) → List A → List A
  update p f [] = []
  update p f (x ∷ xs) = (if p x then f x else x) ∷ update p f xs

  -- DELETE ... WHERE p
  unfoldable pub delete : (A → Bool) → List A → List A
  delete p [] = []
  delete p (x ∷ xs) = let rest = delete p xs in if p x then rest else x ∷ rest

  -- COUNT(*) ... WHERE p, and the row count that an UPDATE or a DELETE reports
  unfoldable pub count : (A → Bool) → List A → ℕ
  count p [] = 0
  count p (x ∷ xs) = let rest = count p xs in if p x then suc rest else rest

module _ {ℓ} {A : Type ℓ} where
  pub find_sound :
      (p : A → Bool) (xs : List A) (x : A) → find p xs ≡ some x → Memᴰ x xs × (p x ≡ true)
  unfolding find
  find_sound p [] x h = absurd (ground arith)
  find_sound p (y ∷ ys) x h = elim (Bool-cases (p y)) [
    | inl e ↦ (Memᴰ.head (ground arith), ground arith)
    | inr e ↦ let (m, q) = find_sound p ys x (ground arith) in (Memᴰ.tail m, q)
  ]

  pub find_complete :
      (p : A → Bool) (xs : List A) {x : A} → find p xs ≡ none → Memᴰ x xs → p x ≡ false
  unfolding find
  find_complete p [] h m = elim m [ ]
  find_complete p (y ∷ ys) h (Memᴰ.head e) = ground arith
  find_complete p (y ∷ ys) h (Memᴰ.tail m) = find_complete p ys (ground arith) m

  pub select_sound :
      (p : A → Bool) (xs : List A) {x : A} → Memᴰ x (select p xs) → Memᴰ x xs × (p x ≡ true)
  unfolding select
  select_sound p [] m = elim m [ ]
  select_sound p (y ∷ ys) {x} m = elim (Bool-cases (p y)) [
    | inl e ↦ hit e (select_sound p ys) (rw e at m)
    | inr e ↦ let (k, q) = select_sound p ys (rw e at m) in (Memᴰ.tail k, q)
  ]
    where
      hit :
          p y ≡ true
          → (Memᴰ x (select p ys) → Memᴰ x ys × (p x ≡ true))
          → Memᴰ x (y ∷ select p ys)
          → Memᴰ x (y ∷ ys) × (p x ≡ true)
      hit e rest (Memᴰ.head q) = (Memᴰ.head q, ground arith)
      hit e rest (Memᴰ.tail k) = let (m', q) = rest k in (Memᴰ.tail m', q)

  pub select_complete :
      (p : A → Bool) (xs : List A) {x : A} → Memᴰ x xs → p x ≡ true → Memᴰ x (select p xs)
  unfolding select
  select_complete p [] m h = elim m [ ]
  select_complete p (y ∷ ys) (Memᴰ.head e) h =
      let hit : p y ≡ true = subst (λ z. p z ≡ true) e h in rw hit (Memᴰ.head e)
  select_complete p (y ∷ ys) (Memᴰ.tail m) h = elim (Bool-cases (p y)) [
    | inl e ↦ rw e (Memᴰ.tail (select_complete p ys m h))
    | inr e ↦ rw e (select_complete p ys m h)
  ]

  pub count-append : (p : A → Bool) (xs ys : List A) → count p (xs ++ ys) ≡ count p xs + count p ys
  unfolding count
  count-append p [] ys = omega arith
  count-append p (x ∷ xs) ys = ground (arith, count-append p xs ys)

  -- An UPDATE that leaves a test as it was on the rows that it changes leaves the count by it.
  pub count-update :
      (p q : A → Bool) (f : A → A) (xs : List A)
      → ((x : A) → p x ≡ true → q (f x) ≡ q x)
      → count q (update p f xs) ≡ count q xs
  unfolding count update
  count-update p q f [] h = refl
  count-update p q f (x ∷ xs) h = ground (arith, count-update p q f xs h, h x)

  -- An UPDATE that brings no row into a test does not raise the count by it.
  pub count-update-le :
      (p q : A → Bool) (f : A → A) (xs : List A)
      → ((x : A) → Memᴰ x xs → p x ≡ true → q (f x) ≡ true → q x ≡ true)
      → count q (update p f xs) ≤ count q xs
  unfolding count update
  count-update-le p q f [] h = omega arith
  count-update-le p q f (x ∷ xs) h =
      ground (arith, count-update-le p q f xs (λ y m. h y (Memᴰ.tail m)), h x (Memᴰ.head refl))

  pub count-zero_of_any : (p : A → Bool) (xs : List A) → any p xs ≡ false → count p xs ≡ 0
  unfolding count
  count-zero_of_any p [] h = refl
  count-zero_of_any p (x ∷ xs) h = ground (arith, count-zero_of_any p xs)

  All-trivial : (xs : List A) → All (λ x. Unit {0}) xs
  All-trivial [] = tt
  All-trivial (x ∷ xs) = (tt, All-trivial xs)

  -- What holds of every row after an UPDATE, from what held of the rows before.
  pub All-update_case {κ μ} :
      (Q : A → Type κ) (P : A → Type μ) (p : A → Bool) (f : A → A) (xs : List A)
      → ((x : A) → Memᴰ x xs → Q x → p x ≡ true → P (f x))
      → ((x : A) → Q x → p x ≡ false → P x)
      → All Q xs
      → All P (update p f xs)
  unfolding update
  All-update_case Q P p f [] hit miss h = tt
  All-update_case Q P p f (x ∷ xs) hit miss h =
      let rest = All-update_case Q P p f xs (λ y m. hit y (Memᴰ.tail m)) miss h.1 in
      elim (Bool-cases (p x)) [
        | inl e ↦ rw e (hit x (Memᴰ.head refl) h.0 e, rest)
        | inr e ↦ rw e (miss x h.0 e, rest)
      ]

  -- An UPDATE keeps what holds of every row, if it keeps it on the rows that it changes.
  pub All-update_mem {κ} :
      (P : A → Type κ) (p : A → Bool) (f : A → A) (xs : List A)
      → ((x : A) → Memᴰ x xs → P x → p x ≡ true → P (f x))
      → All P xs
      → All P (update p f xs)
  All-update_mem P p f xs keep = All-update_case P P p f xs keep (λ x h _. h)

  pub All-update {κ} :
      (P : A → Type κ) (p : A → Bool) (f : A → A) (xs : List A)
      → ((x : A) → P x → p x ≡ true → P (f x))
      → All P xs
      → All P (update p f xs)
  All-update P p f xs keep = All-update_mem P p f xs (λ x _. keep x)

  -- The same with nothing known before.
  pub All-update-All {κ} :
      (P : A → Type κ) (p : A → Bool) (f : A → A) (xs : List A)
      → ((x : A) → p x ≡ true → P (f x))
      → ((x : A) → p x ≡ false → P x)
      → All P (update p f xs)
  All-update-All P p f xs hit miss =
      All-update_case (λ x. Unit {0}) P p f xs (λ x _ _. hit x) (λ x _. miss x) (All-trivial xs)

  pub All-delete {κ} :
      (P : A → Type κ) (p : A → Bool) (xs : List A) → All P xs → All P (delete p xs)
  unfolding delete
  All-delete P p [] h = h
  All-delete P p (x ∷ xs) h = elim (Bool-cases (p x)) [
    | inl e ↦ rw e (All-delete P p xs h.1)
    | inr e ↦ rw e (h.0, All-delete P p xs h.1)
  ]

  -- A DELETE leaves no row that it selects, and a second one finds nothing.
  pub count-delete_self : (p : A → Bool) (xs : List A) → count p (delete p xs) ≡ 0
  unfolding count delete
  count-delete_self p [] = refl
  count-delete_self p (x ∷ xs) = ground (arith, count-delete_self p xs)

  -- The same of every test that the DELETE covers.
  pub count-delete_covered :
      (p q : A → Bool) (xs : List A)
      → ((x : A) → q x ≡ true → p x ≡ true)
      → count q (delete p xs) ≡ 0
  unfolding count delete
  count-delete_covered p q [] h = refl
  count-delete_covered p q (x ∷ xs) h = ground (arith, count-delete_covered p q xs h, h x)

  pub find-delete_self : (p : A → Bool) (xs : List A) → find p (delete p xs) ≡ none
  unfolding find delete
  find-delete_self p [] = refl
  find-delete_self p (x ∷ xs) = ground (arith, find-delete_self p xs)

  pub count-find : (p : A → Bool) (xs : List A) {x : A} → find p xs ≡ some x → 1 ≤ count p xs
  unfolding find count
  count-find p [] h = absurd (ground arith)
  count-find p (y ∷ ys) {x} h = ground (arith, count-find p ys {x = x})
