-- ===== src/Deduplication/Fingerprint/Sets.antt =====
-- The sets of trigrams of app/deduplication/fingerprint.py: similarity does not depend on the order
-- of its arguments.
use lead_pipe.Prelude.{
  ◌+◌, ◌≡◌, refl, Bool, false, not, List, [], ◌∷◌, arith, length, length-append, if◌then◌else◌,
  Bool-cases, inl, inr,
}
use lead_pipe.Prelude.Unicode.{Unicode}
use lead_pipe.Prelude.Tables.{select}
use lead_pipe.Prelude.Texts.{Text, text_eq_iff, mem_text}
use lead_pipe.Deduplication.Fingerprint.{
  set_add, set_update, grams_of, intersection, union, jaccard, trigrams, similarity, windows,
  padded,
}

-- each element once
abbrev NoRepeat : List Text → Type 0
NoRepeat [] = Unit
NoRepeat (g ∷ gs) = (mem_text g gs ≡ false) × NoRepeat gs

set_add-NoRepeat : (g : Text) (set : List Text) → NoRepeat set → NoRepeat (set_add g set)
unfolding set_add
set_add-NoRepeat g set h = elim (Bool-cases (mem_text g set)) [
  | inl e ↦ rw e h
  | inr e ↦ rw e (e, h)
]

set_update-NoRepeat : (gs set : List Text) → NoRepeat set → NoRepeat (set_update gs set)
unfolding set_update
set_update-NoRepeat [] set h = h
set_update-NoRepeat (g ∷ gs) set h =
    set_update-NoRepeat gs (set_add g set) (set_add-NoRepeat g set h)

grams_of-NoRepeat : (words set : List Text) → NoRepeat set → NoRepeat (grams_of words set)
unfolding grams_of
grams_of-NoRepeat [] set h = h
grams_of-NoRepeat (w ∷ words) set h =
    grams_of-NoRepeat words _ (set_update-NoRepeat (windows (padded w)) set h)

-- One element more in a set is found once in another, if it is there.
one_more :
    (x : Text) (a b : List Text)
    → mem_text x a ≡ false
    → NoRepeat b
    → length (select (λ g. mem_text g (x ∷ a)) b)
      ≡ (if mem_text x b then 1 else 0) + length (select (λ g. mem_text g a) b)
unfolding select mem_text
one_more x a [] h n = omega arith
one_more x a (g ∷ b) h n = ground (arith, one_more x a b h n.1, text_eq_iff g x, text_eq_iff x g)

none_in_empty : (b : List Text) → 0 ≡ length (select (λ g. mem_text g []) b)
unfolding select mem_text
none_in_empty [] = refl
none_in_empty (g ∷ b) = none_in_empty b

length-intersection_comm :
    (a b : List Text)
    → NoRepeat a
    → NoRepeat b
    → length (intersection a b) ≡ length (intersection b a)
unfolding intersection select
length-intersection_comm [] b n m = none_in_empty b
length-intersection_comm (x ∷ a) b n m =
    ground (arith, one_more x a b n.0 m, length-intersection_comm a b n.1 m)

length-split :
    (p : Text → Bool) (b : List Text)
    → length (select p b) + length (select (λ g. not (p g)) b) ≡ length b
unfolding select
length-split p [] = omega arith
length-split p (g ∷ b) = ground (arith, length-split p b)

length-union_comm :
    (a b : List Text) → NoRepeat a → NoRepeat b → length (union a b) ≡ length (union b a)
unfolding union
length-union_comm a b n m =
    let same : length (select (λ g. mem_text g b) a) ≡ length (select (λ g. mem_text g a) b) =
      unfold intersection in length-intersection_comm a b n m in
    omega (
      arith,
      length-append a (select (λ g. not (mem_text g a)) b),
      length-append b (select (λ g. not (mem_text g b)) a),
      length-split (λ g. mem_text g a) b,
      length-split (λ g. mem_text g b) a,
      same,
    )

jaccard_comm : (a b : List Text) → NoRepeat a → NoRepeat b → jaccard a b ≡ jaccard b a
unfolding jaccard
jaccard_comm [] [] n m = refl
jaccard_comm [] (h ∷ b) n m = refl
jaccard_comm (g ∷ a) [] n m = refl
jaccard_comm (g ∷ a) (h ∷ b) n m =
    rw (length-intersection_comm (g ∷ a) (h ∷ b) n m, length-union_comm (g ∷ a) (h ∷ b) n m)

module _ ⦃u : Unicode⦄ where
  -- Similarity is symmetric.
  pub similarity_comm : (left right : Text) → similarity left right ≡ similarity right left
  unfolding similarity trigrams
  similarity_comm left right =
      jaccard_comm _ _ (grams_of-NoRepeat _ [] tt) (grams_of-NoRepeat _ [] tt)
