-- ===== src/Deduplication/Merge/AnyOrder.antt =====
-- The merge of app/deduplication/merge.py does not depend on the order in which the records came.
use mathlib.Core.List.{Memᴰ, Permᴰ}
use lead_pipe.Prelude.{◌≡◌, refl, ◌∙◌, ap, List, arith}
use lead_pipe.Prelude.Unicode.{Unicode}
use lead_pipe.Prelude.Orders.{sort_by-perm}
use lead_pipe.Deduplication.Merge.{Candidate, latest, rank, rank_order, merge}

latest-perm : {xs ys : List Candidate} → Permᴰ xs ys → latest xs ≡ latest ys
unfolding latest
latest-perm Permᴰ.nil = refl
latest-perm (Permᴰ.cons e p) =
    omega (arith, latest-perm p, ap (λ (c : Candidate). c.lead.collected_at) e)
latest-perm (Permᴰ.swap e f) = omega (
  arith,
  ap (λ (c : Candidate). c.lead.collected_at) e,
  ap (λ (c : Candidate). c.lead.collected_at) f,
)
latest-perm (Permᴰ.trans p q) = latest-perm p ∙ latest-perm q

module _ ⦃u : Unicode⦄ where
  -- No two candidates rank alike.
  abbrev pub Ranked : List Candidate → Type 0
  Ranked cs = (c d : Candidate) → Memᴰ c cs → Memᴰ d cs → rank c ≡ rank d → c ≡ d

  -- In whatever order candidates are given that do not rank alike, they make the same lead, with
  -- the same origins.
  pub merge-perm : {cs ds : List Candidate} → Permᴰ cs ds → Ranked cs → merge cs ≡ merge ds
  unfolding merge
  merge-perm p distinct = rw (latest-perm p, sort_by-perm rank_order rank p distinct)
