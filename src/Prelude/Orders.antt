-- ===== src/Prelude/Orders.antt =====
-- Sorting by a key, as Python's `sorted(items, key=...)` does it: stably, by a total order on keys.
-- An order is a record of a Boolean test and its laws; tuples compare lexicographically.
use Prim.Native.Nat.{ℕ}
use mathlib.Core.Path.{subst, ◌≡◌, refl, sym, ◌∙◌}
use mathlib.Core.Bool.{false≢true, Bool, true, false}
use mathlib.Core.Logic.{inl, inr}
use mathlib.Core.List.{List, [], ◌∷◌, Memᴰ, Permᴰ}
use mathlib.Core.List.Permᴰ
use native.Mathlib.Omega.{arith}
use lead_pipe.Prelude.Tests.{if◌then◌else◌, ◌==◌, ltb, leb, Bool-cases, some_eq}
use lead_pipe.Prelude.Lists.{All, All-mem}
use lead_pipe.Prelude.Tables.{find}
use mathlib.Core.Option.{some}
use lead_pipe.Prelude.Texts.{Text}

pub record Order {ℓ} (K : Type ℓ) : Type ℓ where
  pub le : K → K → Bool
  pub le_total : (a b : K) → le a b ≡ false → le b a ≡ true
  pub le_trans : (a b c : K) → le a b ≡ true → le b c ≡ true → le a c ≡ true
  pub le_antisymm : (a b : K) → le a b ≡ true → le b a ≡ true → a ≡ b

-- numbers, ascending and descending (`-n` in a key)
pub ascending-total : (a b : ℕ) → leb a b ≡ false → leb b a ≡ true
ascending-total a b h = ground arith

pub ascending_trans : (a b c : ℕ) → leb a b ≡ true → leb b c ≡ true → leb a c ≡ true
ascending_trans a b c h k = ground arith

pub ascending_antisymm : (a b : ℕ) → leb a b ≡ true → leb b a ≡ true → a ≡ b
ascending_antisymm a b h k = ground arith

abbrev pub ascending : Order ℕ
ascending = record {
  le = leb;
  le_total = ascending-total;
  le_trans = ascending_trans;
  le_antisymm = ascending_antisymm;
}

module _ {ℓ} {K : Type ℓ} (o : Order K) where
  pub reversed_trans : (a b c : K) → o.le b a ≡ true → o.le c b ≡ true → o.le c a ≡ true
  reversed_trans a b c h k = o.le_trans c b a k h

  pub reversed_antisymm : (a b : K) → o.le b a ≡ true → o.le a b ≡ true → a ≡ b
  reversed_antisymm a b h k = o.le_antisymm a b k h

  abbrev pub reversed : Order K
  reversed = record {
    le = λ a b. o.le b a;
    le_total = λ a b. o.le_total b a;
    le_trans = reversed_trans;
    le_antisymm = reversed_antisymm;
  }

-- tuples
module _ {ℓ κ} {K : Type ℓ} {L : Type κ} (o : Order K) (p : Order L) where
  abbrev pub lex_le : K × L → K × L → Bool
  lex_le (a, x) (b, y) = if o.le a b then (if o.le b a then p.le x y else true) else false

  pub lex-total : (a b : K × L) → lex_le a b ≡ false → lex_le b a ≡ true
  lex-total (a, x) (b, y) h = ground (arith, o.le_total a b, o.le_total b a, p.le_total x y)

  pub lex_trans : (a b c : K × L) → lex_le a b ≡ true → lex_le b c ≡ true → lex_le a c ≡ true
  lex_trans (a, x) (b, y) (c, z) h k =
      ground (arith, o.le_trans a b c, o.le_trans b c a, o.le_trans c a b, p.le_trans x y z)

  pub lex_antisymm : (a b : K × L) → lex_le a b ≡ true → lex_le b a ≡ true → a ≡ b
  lex_antisymm (a, x) (b, y) h k = ground (arith, o.le_antisymm a b, p.le_antisymm x y)

  abbrev pub lex : Order (K × L)
  lex = record {
    le = lex_le;
    le_total = lex-total;
    le_trans = lex_trans;
    le_antisymm = lex_antisymm;
  }

-- texts, by code points
unfoldable pub text_le : Text → Text → Bool
text_le [] t = true
text_le (c ∷ s) [] = false
text_le (c ∷ s) (d ∷ t) = if c == d then text_le s t else ltb c d

pub text_le-total : (s t : Text) → text_le s t ≡ false → text_le t s ≡ true
unfolding text_le
text_le-total [] t h = cc
text_le-total (c ∷ s) [] h = refl
text_le-total (c ∷ s) (d ∷ t) h = ground (arith, text_le-total s t)

pub text_le_trans : (s t u : Text) → text_le s t ≡ true → text_le t u ≡ true → text_le s u ≡ true
unfolding text_le
text_le_trans [] t u h k = refl
text_le_trans (c ∷ s) [] u h k = cc
text_le_trans (c ∷ s) (d ∷ t) [] h k = cc
text_le_trans (c ∷ s) (d ∷ t) (e ∷ u) h k = ground (arith, text_le_trans s t u)

pub text_le_antisymm : (s t : Text) → text_le s t ≡ true → text_le t s ≡ true → s ≡ t
unfolding text_le
text_le_antisymm [] [] h k = refl
text_le_antisymm [] (d ∷ t) h k = cc
text_le_antisymm (c ∷ s) [] h k = cc
text_le_antisymm (c ∷ s) (d ∷ t) h k = ground (arith, text_le_antisymm s t)

abbrev pub text_order : Order Text
unfolding text_le
text_order = record {
  le = text_le;
  le_total = text_le-total;
  le_trans = text_le_trans;
  le_antisymm = text_le_antisymm;
}

module _ {ℓ κ} {A : Type ℓ} {K : Type κ} (o : Order K) (key : A → K) where
  unfoldable pub insert_by : A → List A → List A
  insert_by x [] = x ∷ []
  insert_by x (y ∷ ys) =
      let rest = insert_by x ys in if o.le (key x) (key y) then x ∷ y ∷ ys else y ∷ rest

  unfoldable pub sort_by : List A → List A
  unfolding insert_by
  sort_by [] = []
  sort_by (x ∷ xs) = insert_by x (sort_by xs)

  insert_by_comm :
      (x y : A) (zs : List A)
      → (key x ≡ key y → x ≡ y)
      → insert_by x (insert_by y zs) ≡ insert_by y (insert_by x zs)
  unfolding insert_by
  insert_by_comm x y [] h =
      ground (arith, o.le_total (key x) (key y), o.le_antisymm (key x) (key y))
  insert_by_comm x y (z ∷ zs) h = ground (
    arith,
    insert_by_comm x y zs h,
    o.le_total (key x) (key y),
    o.le_antisymm (key x) (key y),
    o.le_trans (key x) (key y) (key z),
    o.le_trans (key y) (key x) (key z),
    h,
  )

  -- Elements with one key are one element.
  abbrev pub Distinct : List A → Type (ℓ ⊔ κ)
  Distinct xs = (x y : A) → Memᴰ x xs → Memᴰ y xs → key x ≡ key y → x ≡ y

  pub mem-perm : {x : A} {xs ys : List A} → Permᴰ xs ys → Memᴰ x ys → Memᴰ x xs
  mem-perm Permᴰ.nil m = m
  mem-perm (Permᴰ.cons e p) (Memᴰ.head q) = Memᴰ.head (q ∙ sym e)
  mem-perm (Permᴰ.cons e p) (Memᴰ.tail m) = Memᴰ.tail (mem-perm p m)
  mem-perm (Permᴰ.swap e f) (Memᴰ.head q) = Memᴰ.tail (Memᴰ.head (q ∙ sym f))
  mem-perm (Permᴰ.swap e f) (Memᴰ.tail (Memᴰ.head q)) = Memᴰ.head (q ∙ sym e)
  mem-perm (Permᴰ.swap e f) (Memᴰ.tail (Memᴰ.tail m)) = Memᴰ.tail (Memᴰ.tail m)
  mem-perm (Permᴰ.trans p q) m = mem-perm p (mem-perm q m)

  -- With distinct keys the order of the items to sort makes no difference.
  pub sort_by-perm : {xs ys : List A} → Permᴰ xs ys → Distinct xs → sort_by xs ≡ sort_by ys
  unfolding sort_by
  sort_by-perm Permᴰ.nil d = refl
  sort_by-perm (Permᴰ.cons {a = a} {b = b} {l₁ = xs} {l₂ = ys} e p) d =
      let rest : sort_by xs ≡ sort_by ys =
        sort_by-perm p (λ x y m n. d x y (Memᴰ.tail m) (Memᴰ.tail n)) in
      cc
  sort_by-perm (Permᴰ.swap {a = a} {b = b} {l = l} e f) d =
      insert_by_comm a b (sort_by l) (d a b (Memᴰ.head refl) (Memᴰ.tail (Memᴰ.head refl))) ∙ cc
  sort_by-perm (Permᴰ.trans p q) d =
      sort_by-perm p d ∙ sort_by-perm q (λ x y m n. d x y (mem-perm p m) (mem-perm p n))

  insert_by-perm : (x : A) (xs : List A) → Permᴰ (insert_by x xs) (x ∷ xs)
  unfolding insert_by
  insert_by-perm x [] = Permᴰ.refl (x ∷ [])
  insert_by-perm x (y ∷ ys) = elim (Bool-cases (o.le (key x) (key y))) [
    | inl e ↦ rw e (Permᴰ.refl (x ∷ y ∷ ys))
    | inr e ↦ rw e (Permᴰ.trans (Permᴰ.cons refl (insert_by-perm x ys)) (Permᴰ.swap refl refl))
  ]

  -- The sorted list has the items of the list.
  pub sort_by-perm_self : (xs : List A) → Permᴰ (sort_by xs) xs
  unfolding sort_by
  sort_by-perm_self [] = Permᴰ.nil
  sort_by-perm_self (x ∷ xs) =
      Permᴰ.trans (insert_by-perm x (sort_by xs)) (Permᴰ.cons refl (sort_by-perm_self xs))

  -- In rank order: each item's key is at most those of the items behind it.
  abbrev pub IsSorted : List A → Type 0
  IsSorted [] = Unit
  IsSorted (x ∷ xs) = All (λ y. o.le (key x) (key y) ≡ true) xs × IsSorted xs

  All-insert_by :
      (z x : A) (xs : List A)
      → o.le (key z) (key x) ≡ true
      → All (λ y. o.le (key z) (key y) ≡ true) xs
      → All (λ y. o.le (key z) (key y) ≡ true) (insert_by x xs)
  unfolding insert_by
  All-insert_by z x [] h a = (h, tt)
  All-insert_by z x (y ∷ ys) h a = elim (Bool-cases (o.le (key x) (key y))) [
    | inl e ↦ rw e (h, a)
    | inr e ↦ rw e (a.0, All-insert_by z x ys h a.1)
  ]

  All-le_trans :
      (x y : A) (zs : List A)
      → o.le (key x) (key y) ≡ true
      → All (λ z. o.le (key y) (key z) ≡ true) zs
      → All (λ z. o.le (key x) (key z) ≡ true) zs
  All-le_trans x y [] h a = tt
  All-le_trans x y (z ∷ zs) h a =
      (o.le_trans (key x) (key y) (key z) h a.0, All-le_trans x y zs h a.1)

  insert_by-IsSorted : (x : A) (xs : List A) → IsSorted xs → IsSorted (insert_by x xs)
  unfolding insert_by
  insert_by-IsSorted x [] s = (tt, tt)
  insert_by-IsSorted x (y ∷ ys) s = elim (Bool-cases (o.le (key x) (key y))) [
    | inl e ↦ rw e ((e, All-le_trans x y ys e s.0), s)
    | inr e ↦
        rw e (All-insert_by y x ys (o.le_total (key x) (key y) e) s.0, insert_by-IsSorted x ys s.1)
  ]

  pub sort_by-IsSorted : (xs : List A) → IsSorted (sort_by xs)
  unfolding sort_by
  sort_by-IsSorted [] = tt
  sort_by-IsSorted (x ∷ xs) = insert_by-IsSorted x (sort_by xs) (sort_by-IsSorted xs)

  le_refl : (a : K) → o.le a a ≡ true
  le_refl a = elim (Bool-cases (o.le a a)) [ inl e ↦ e | inr e ↦ o.le_total a a e ]

  -- The first item of a sorted list that passes a test ranks before all that pass it.
  pub find-IsSorted :
      (p : A → Bool) (xs : List A) (x y : A)
      → IsSorted xs
      → find p xs ≡ some x
      → Memᴰ y xs
      → p y ≡ true
      → o.le (key x) (key y) ≡ true
  unfolding find
  find-IsSorted p [] x y s h m f = elim m [ ]
  find-IsSorted p (z ∷ xs) x y s h (Memᴰ.head q) f = elim (Bool-cases (p z)) [
    | inl e ↦
        let same : z ≡ x = some_eq (rw (e, find) at h) in
        subst (λ w. o.le (key x) (key w) ≡ true) (sym q)
          (subst (λ w. o.le (key w) (key z) ≡ true) same (le_refl (key z)))
    | inr e ↦ absurd (false≢true (sym e ∙ subst (λ w. p w ≡ true) q f))
  ]
  find-IsSorted p (z ∷ xs) x y s h (Memᴰ.tail m) f = elim (Bool-cases (p z)) [
    | inl e ↦
        let same : z ≡ x = some_eq (rw (e, find) at h) in
        subst (λ w. o.le (key w) (key y) ≡ true) same (All-mem _ xs s.0 m)
    | inr e ↦ find-IsSorted p xs x y s.1 (rw (e, find) at h) m f
  ]
