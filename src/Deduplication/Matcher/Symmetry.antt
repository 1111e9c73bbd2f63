-- ===== src/Deduplication/Matcher/Symmetry.antt =====
-- `match` of app/deduplication/matcher.py does not depend on which lead is the left one.
use lead_pipe.Prelude.{◌≡◌, refl, Option, none, some}
use lead_pipe.Prelude.Unicode.{Unicode}
use lead_pipe.Prelude.Texts.{Text, text_eq_comm}
use lead_pipe.Domain.{NormalizedLead}
use lead_pipe.Deduplication.Fingerprint.{Fingerprints, fingerprints}
use lead_pipe.Deduplication.Fingerprint.Sets.{similarity_comm}
use lead_pipe.Deduplication.Matcher.{MatchPolicy, equal, match, match_name_location, score_names}

equal_comm : (a b : Option Text) → equal a b ≡ equal b a
unfolding equal
equal_comm none none = refl
equal_comm none (some w) = refl
equal_comm (some v) none = refl
equal_comm (some v) (some w) = text_eq_comm v w

module _ ⦃u : Unicode⦄ where
  score_names_comm :
      (a b : Option Text) (policy : MatchPolicy) → score_names a b policy ≡ score_names b a policy
  score_names_comm none none policy = refl
  score_names_comm none (some b) policy = refl
  score_names_comm (some a) none policy = refl
  score_names_comm (some a) (some b) policy = rw (similarity_comm a b)

  match_name_location_comm :
      (a b : Fingerprints) (policy : MatchPolicy)
      → match_name_location a b policy ≡ match_name_location b a policy
  unfolding match_name_location
  match_name_location_comm a b policy =
      rw (equal_comm a.location b.location, score_names_comm a.name_slug b.name_slug policy)

  -- Two leads match, by the same rule and with the same confidence, whichever comes first.
  pub match_comm :
      (left right : NormalizedLead) (policy : MatchPolicy)
      → match left right policy ≡ match right left policy
  unfolding match
  match_comm left right policy =
      let a = fingerprints left in
      let b = fingerprints right in
      rw (
        equal_comm a.email b.email,
        equal_comm a.domain b.domain,
        equal_comm a.phone b.phone,
        equal_comm a.external_id b.external_id,
        match_name_location_comm a b policy,
        text_eq_comm left.source.name right.source.name,
      )
