-- ===== src/Deduplication/Matcher/Explained.antt =====
-- What a match of app/deduplication/matcher.py rests on, and which matches merge by themselves.
use mathlib.Core.Path.{subst}
use lead_pipe.Prelude.{
  ◌≡◌, refl, Bool, true, false, ◌&&◌, Option, none, some, arith, if_some, if_some', or_else-some,
  not_some, sym, inl, inr, ap,
}
use lead_pipe.Prelude.Unicode.{Unicode}
use lead_pipe.Prelude.Ratios.{Ratio, percent, ratio_lt, ratio_min, capped_below}
use lead_pipe.Prelude.Texts.{Text, codes, text_eq, text_eq_iff, contains, starts_with}
use lead_pipe.Domain.{NormalizedLead}
use lead_pipe.Deduplication.Fingerprint.{fingerprints, similarity, keep_if}
use lead_pipe.Deduplication.Matcher.{
  MatchRule, email, website, phone, name_location, external_id, MatchPolicy, MatchResult, equal,
  result, match, match_name_location, score_names, scored,
}

-- Two optional values are one value.
abbrev pub Shared : Option Text → Option Text → (Text → Type 0) → Type 0
Shared a b P = (v : Text) × (a ≡ some v) × (b ≡ some v) × P v

equal-Shared : (a b : Option Text) → equal a b ≡ true → Shared a b (λ v. Unit)
unfolding equal
equal-Shared none b h = cc
equal-Shared (some v) none h = cc
equal-Shared (some v) (some w) h = (v, refl, ground (arith, text_eq_iff v w), tt)

keep_if-some :
    (p : Text → Bool) (o : Option Text) {v : Text}
    → keep_if p o ≡ some v
    → (o ≡ some v) × (p v ≡ true)
keep_if-some p none h = cc
keep_if-some p (some w) {v} h = ground (arith)

module _ ⦃u : Unicode⦄ (left right : NormalizedLead) (policy : MatchPolicy) where
  -- The evidence that each rule asks for.
  abbrev pub Evidence : MatchRule → Type 0
  Evidence email = Shared left.email right.email (λ e. contains (codes "@") e ≡ true)
  Evidence website = Shared left.website_domain right.website_domain (λ d. Unit)
  Evidence phone = Shared left.phone right.phone (λ n. starts_with (codes "+") n ≡ true)
  Evidence name_location =
      Shared (fingerprints left).location (fingerprints right).location (λ l. Unit)
      × ((a : Text) × (b : Text) × ((fingerprints left).name_slug ≡ some a)
          × ((fingerprints right).name_slug ≡ some b)
          × (ratio_lt (similarity a b) policy.name_similarity_threshold ≡ false))
  Evidence external_id =
      (left.source.name ≡ right.source.name)
      × Shared (fingerprints left).external_id (fingerprints right).external_id (λ i. Unit)

  scored-Evidence :
      (a b : Text) {r : MatchResult}
      → scored (similarity a b) policy ≡ some r
      → (ratio_lt (similarity a b) policy.name_similarity_threshold ≡ false)
        × (r ≡ result name_location (ratio_min (similarity a b) policy.name_confidence_cap) policy)
  scored-Evidence a b h = ground arith

  score_names-Evidence :
      (x y : Option Text) {r : MatchResult}
      → score_names x y policy ≡ some r
      → (a : Text) × (b : Text) × (x ≡ some a)
        × (y ≡ some b)
        × (ratio_lt (similarity a b) policy.name_similarity_threshold ≡ false)
        × (r ≡ result name_location (ratio_min (similarity a b) policy.name_confidence_cap) policy)
  score_names-Evidence none y h = cc
  score_names-Evidence (some a) none h = cc
  score_names-Evidence (some a) (some b) h =
      let (far, same) = scored-Evidence a b h in (a, b, refl, refl, far, same)

  name_location-Evidence :
      {r : MatchResult}
      → match_name_location (fingerprints left) (fingerprints right) policy ≡ some r
      → Evidence name_location
        × ((score : Ratio) × (r
              ≡ result name_location (ratio_min score policy.name_confidence_cap) policy))
  unfolding match_name_location
  name_location-Evidence {r} h =
      let x = fingerprints left in
      let y = fingerprints right in
      elim (if_some' (equal x.location y.location) (score_names x.name_slug y.name_slug policy) h) [
        | inl (e, k) ↦
            let (a, b, p, q, far, same) = score_names-Evidence x.name_slug y.name_slug k in
            ((equal-Shared x.location y.location e, (a, b, p, q, far)), (similarity a b, same))
        | inr (_, n) ↦ absurd (not_some n)
      ]

  abbrev same_source_id : Bool
  same_source_id =
      text_eq left.source.name right.source.name
      && equal (fingerprints left).external_id (fingerprints right).external_id

  external_id-Evidence : same_source_id ≡ true → Evidence external_id
  external_id-Evidence h = (
    (text_eq_iff left.source.name right.source.name).0 (ground arith),
    equal-Shared (fingerprints left).external_id (fingerprints right).external_id (ground arith),
  )

  fingerprint-Shared :
      (p : Text → Bool) (a b : Option Text)
      → equal (keep_if p a) (keep_if p b) ≡ true
      → Shared a b (λ v. p v ≡ true)
  fingerprint-Shared p a b h =
      let (v, e, f, _) = equal-Shared (keep_if p a) (keep_if p b) h in
      let (x, q) = keep_if-some p a e in (v, x, (keep_if-some p b f).0, q)

  -- which test of `match` found the result
  data Reason (r : MatchResult) : Type 0 where
    by_email :
        equal (fingerprints left).email (fingerprints right).email ≡ true
        → r ≡ result email (percent 100) policy
        → Reason r
    by_domain :
        equal (fingerprints left).domain (fingerprints right).domain ≡ true
        → r ≡ result website (percent 95) policy
        → Reason r
    by_phone :
        equal (fingerprints left).phone (fingerprints right).phone ≡ true
        → r ≡ result phone (percent 90) policy
        → Reason r
    by_name :
        match_name_location (fingerprints left) (fingerprints right) policy ≡ some r → Reason r
    by_id : same_source_id ≡ true → r ≡ result external_id (percent 100) policy → Reason r

  match-Reason : {r : MatchResult} → match left right policy ≡ some r → Reason r
  unfolding match
  match-Reason {r} h =
      let a = fingerprints left in
      let b = fingerprints right in
      elim (if_some (equal a.email b.email) _ h) [
        | inl (e, x) ↦ by_email e (sym x)
        | inr (_, h₁) ↦ elim (if_some (equal a.domain b.domain) _ h₁) [
          | inl (e, x) ↦ by_domain e (sym x)
          | inr (_, h₂) ↦ elim (if_some (equal a.phone b.phone) _ h₂) [
            | inl (e, x) ↦ by_phone e (sym x)
            | inr (_, h₃) ↦ elim (or_else-some (match_name_location a b policy) _ h₃) [
              | inl n ↦ by_name n
              | inr h₄ ↦ elim (if_some same_source_id none h₄) [
                | inl (e, x) ↦ by_id e (sym x)
                | inr (_, n) ↦ absurd (not_some n)
              ]
            ]
          ]
        ]
      ]

  Reason-Evidence : (r : MatchResult) → Reason r → Evidence r.rule
  unfolding result fingerprints
  Reason-Evidence r (by_email e x) =
      subst (λ (m : MatchResult). Evidence m.rule) (sym x)
        (fingerprint-Shared (contains (codes "@")) left.email right.email e)
  Reason-Evidence r (by_domain e x) =
      subst (λ (m : MatchResult). Evidence m.rule) (sym x)
        (equal-Shared left.website_domain right.website_domain e)
  Reason-Evidence r (by_phone e x) =
      subst (λ (m : MatchResult). Evidence m.rule) (sym x)
        (fingerprint-Shared (starts_with (codes "+")) left.phone right.phone e)
  Reason-Evidence r (by_name n) =
      let (ev, (_, x)) = name_location-Evidence n in
      subst (λ (m : MatchResult). Evidence m.rule) (sym x) ev
  Reason-Evidence r (by_id e x) =
      subst (λ (m : MatchResult). Evidence m.rule) (sym x) (external_id-Evidence e)

  -- A match rests on the evidence that its rule asks for: one email with an `@`, one website
  -- domain, one phone number that begins with `+`, one location and names as similar as the
  -- policy asks, or one identifier of one source.
  pub match-Evidence : {r : MatchResult} → match left right policy ≡ some r → Evidence r.rule
  match-Evidence {r} h = Reason-Evidence r (match-Reason h)

  Reason-capped :
      (r : MatchResult)
      → ratio_lt policy.name_confidence_cap policy.auto_merge_threshold ≡ true
      → Reason r
      → r.rule ≡ name_location
      → r.auto_merge ≡ false
  unfolding result
  Reason-capped r capped (by_name n) named =
      let (_, (score, x)) = name_location-Evidence n in
      subst (λ (m : MatchResult). m.auto_merge ≡ false) (sym x)
        (capped_below score policy.name_confidence_cap policy.auto_merge_threshold capped)
  Reason-capped r capped (by_email e x) named = cc (ap (λ (m : MatchResult). m.rule) x)
  Reason-capped r capped (by_domain e x) named = cc (ap (λ (m : MatchResult). m.rule) x)
  Reason-capped r capped (by_phone e x) named = cc (ap (λ (m : MatchResult). m.rule) x)
  Reason-capped r capped (by_id e x) named = cc (ap (λ (m : MatchResult). m.rule) x)

  -- Where the cap on the confidence of names is below the threshold of merging, a match by name and
  -- location never merges by itself.
  pub match-name_location_review :
      {r : MatchResult}
      → ratio_lt policy.name_confidence_cap policy.auto_merge_threshold ≡ true
      → match left right policy ≡ some r
      → r.rule ≡ name_location
      → r.auto_merge ≡ false
  match-name_location_review {r} capped h = Reason-capped r capped (match-Reason h)
