-- ===== src/Prelude/Keyset.antt =====
-- Reading a list of rising ids in pages: each page starts after the last id of the one before.
use Prim.Native.Nat.{ℕ, zero, suc, ◌+◌, ◌≤◌, ◌<◌}
use mathlib.Core.Path.{◌≡◌, refl, ap, sym, ◌∙◌}
use mathlib.Core.Logic.{inl, inr}
use mathlib.Core.Bool.{Bool, true, false, ◌&&◌}
use mathlib.Core.List.{List, [], ◌∷◌, ◌++◌}
use native.Mathlib.Omega.{arith}
use lead_pipe.Prelude.Tests.{if◌then◌else◌, ltb, leb, Bool-cases}
use lead_pipe.Prelude.Lists.{All, length, take, length-append}
use lead_pipe.Prelude.Tables.{select}
use lead_pipe.Prelude.Orders.{ascending, insert_by, sort_by}

module _ {ℓ} {A : Type ℓ} where
  abbrev drop : ℕ → List A → List A
  drop zero xs = xs
  drop (suc n) [] = []
  drop (suc n) (x ∷ xs) = drop n xs

  take-append_drop : (n : ℕ) (xs : List A) → take n xs ++ drop n xs ≡ xs
  take-append_drop zero xs = refl
  take-append_drop (suc n) [] = refl
  take-append_drop (suc n) (x ∷ xs) = ap (λ ys. x ∷ ys) (take-append_drop n xs)

  take_short : (n : ℕ) (xs : List A) → length (take n xs) < n → take n xs ≡ xs
  take_short zero xs h = absurd (omega arith)
  take_short (suc n) [] h = refl
  take_short (suc n) (x ∷ xs) h = ap (λ ys. x ∷ ys) (take_short n xs (omega arith))

  length-drop-le : (n : ℕ) (xs : List A) → length (drop n xs) ≤ length xs
  length-drop-le zero xs = omega arith
  length-drop-le (suc n) [] = omega arith
  length-drop-le (suc n) (x ∷ xs) = omega (arith, length-drop-le n xs)

  pub length-select-le : (p : A → Bool) (xs : List A) → length (select p xs) ≤ length xs
  unfolding select
  length-select-le p [] = omega arith
  length-select-le p (x ∷ xs) = ground (arith, length-select-le p xs)

  pub select-and :
      (p q : A → Bool) (xs : List A) → select (λ x. p x && q x) xs ≡ select p (select q xs)
  unfolding select
  select-and p q [] = refl
  select-and p q (x ∷ xs) = elim (Bool-cases (q x)) [
    | inl e ↦ elim (Bool-cases (p x)) [
      | inl f ↦ rw (e, f, select-and p q xs) refl
      | inr f ↦ rw (e, f, select-and p q xs) refl
    ]
    | inr e ↦ elim (Bool-cases (p x)) [
      | inl f ↦ rw (e, f, select-and p q xs) refl
      | inr f ↦ rw (e, f, select-and p q xs) refl
    ]
  ]

module _ {ℓ} {A : Type ℓ} (id : A → ℕ) where
  abbrev pub Over : ℕ → List A → Type 0
  Over a xs = All (λ x. a < id x) xs

  abbrev pub Rising : List A → Type 0
  Rising [] = Unit
  Rising (x ∷ xs) = Over (id x) xs × Rising xs

  abbrev pub above : ℕ → List A → List A
  above a xs = select (λ x. ltb a (id x)) xs

  abbrev pub last_id : ℕ → List A → ℕ
  last_id a [] = a
  last_id a (x ∷ xs) = last_id (id x) xs

  pub above_all : (a : ℕ) (xs : List A) → Over a xs → above a xs ≡ xs
  unfolding select
  above_all a [] h = refl
  above_all a (x ∷ xs) h =
      let e : ltb a (id x) ≡ true = ground arith in rw (e, above_all a xs h.1) refl

  Over-above : (a : ℕ) (xs : List A) → Over a (above a xs)
  unfolding select
  Over-above a [] = tt
  Over-above a (x ∷ xs) = elim (Bool-cases (ltb a (id x))) [
    | inl e ↦ rw e (ground arith, Over-above a xs)
    | inr e ↦ rw e (Over-above a xs)
  ]

  pub Over-select : (a : ℕ) (p : A → Bool) (xs : List A) → Over a xs → Over a (select p xs)
  unfolding select
  Over-select a p [] h = tt
  Over-select a p (x ∷ xs) h = elim (Bool-cases (p x)) [
    | inl e ↦ rw e (h.0, Over-select a p xs h.1)
    | inr e ↦ rw e (Over-select a p xs h.1)
  ]

  pub Rising-select : (p : A → Bool) (xs : List A) → Rising xs → Rising (select p xs)
  unfolding select
  Rising-select p [] h = tt
  Rising-select p (x ∷ xs) h = elim (Bool-cases (p x)) [
    | inl e ↦ rw e (Over-select (id x) p xs h.0, Rising-select p xs h.1)
    | inr e ↦ rw e (Rising-select p xs h.1)
  ]

  insert_by-Rising : (x : A) (xs : List A) → Over (id x) xs → insert_by ascending id x xs ≡ x ∷ xs
  unfolding insert_by
  insert_by-Rising x [] h = refl
  insert_by-Rising x (y ∷ ys) h =
      let e : leb (id x) (id y) ≡ true = ground (arith, h.0) in rw e refl

  pub sort_by-Rising : (xs : List A) → Rising xs → sort_by ascending id xs ≡ xs
  unfolding sort_by
  sort_by-Rising [] h = refl
  sort_by-Rising (x ∷ xs) h = rw (sort_by-Rising xs h.1) (insert_by-Rising x xs h.0)

  above-above : (a b : ℕ) (xs : List A) → a ≤ b → above b (above a xs) ≡ above b xs
  unfolding select
  above-above a b [] h = refl
  above-above a b (x ∷ xs) h = elim (Bool-cases (ltb a (id x))) [
    | inl e ↦ rw (e, above-above a b xs h) refl
    | inr e ↦ let f : ltb b (id x) ≡ false = ground arith in rw (e, f, above-above a b xs h) refl
  ]

  last_id-le : (n a : ℕ) (xs : List A) → Over a xs → Rising xs → a ≤ last_id a (take n xs)
  last_id-le zero a xs h r = omega arith
  last_id-le (suc n) a [] h r = omega arith
  last_id-le (suc n) a (x ∷ xs) h r = omega (arith, last_id-le n (id x) xs r.0 r.1, h.0)

  above_cut :
      (n a : ℕ) (xs : List A) → Over a xs → Rising xs → above (last_id a (take n xs)) xs ≡ drop n xs
  unfolding select
  above_cut zero a xs h r = above_all a xs h
  above_cut (suc n) a [] h r = refl
  above_cut (suc n) a (x ∷ xs) h r =
      let e : ltb (last_id (id x) (take n xs)) (id x) ≡ false =
        ground (arith, last_id-le n (id x) xs r.0 r.1) in
      rw e (above_cut n (id x) xs r.0 r.1)

  -- the rows after `a`, in pages of `n`, with so many pages at most
  unfoldable pub rounds : ℕ → ℕ → ℕ → List A → List A
  rounds zero n a ys = []
  rounds (suc k) n a ys =
      let rows = take n (above a ys) in
      let rest = rounds k n (last_id a rows) ys in
      if ltb (length rows) n then rows else rows ++ rest

  pub rounds_lem :
      (k n a : ℕ) (ys : List A)
      → 0 < n
      → Rising ys
      → length (above a ys) < k
      → rounds k n a ys ≡ above a ys
  unfolding rounds
  rounds_lem zero n a ys h r small = absurd (omega arith)
  rounds_lem (suc k) n a ys h r small = elim (Bool-cases (ltb (length (take n (above a ys))) n)) [
    | inl e ↦ rw e (take_short n (above a ys) (ground arith))
    | inr e ↦
        let zs = above a ys in
        let b = last_id a (take n zs) in
        let on : a ≤ b = last_id-le n a zs (Over-above a ys) (Rising-select _ ys r) in
        let next : above b ys ≡ drop n zs =
          sym (above-above a b ys on) ∙ above_cut n a zs (Over-above a ys) (Rising-select _ ys r) in
        let all : length (take n zs) + length (drop n zs) ≡ length zs =
          sym (length-append (take n zs) (drop n zs)) ∙ ap length (take-append_drop n zs) in
        let full : n ≤ length (take n zs) = ground arith in
        let fewer : length (above b ys) < k = rw next (omega arith) in
        rw (e, rounds_lem k n b ys h r fewer, next) (take-append_drop n zs)
  ]
