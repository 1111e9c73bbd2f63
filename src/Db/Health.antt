-- ===== src/Db/Health.antt =====
-- `check_readiness` of app/db/health.py. What the database and Alembic answer is an argument.
use lead_pipe.Prelude.{◌≡◌, ◌↔◌, refl, ap, Bool, true, false, ◌&&◌, Option, none, some, take}
use lead_pipe.Prelude.Texts.{Text, codes, opt_text_eq, text_eq_iff}

-- what a probe answers, or the text of the exception that it raises
pub data Probe {ℓ} (A : Type ℓ) : Type ℓ where
  answered : A → Probe A
  raised : Text → Probe A

-- `SELECT 1`, the head of the scripts, and the revision that the database has
pub record Probes : Type 0 where
  pub ping : Probe (Unit {0})
  pub head : Probe (Option Text)
  pub applied : Probe (Option Text)

pub record Readiness : Type 0 where
  pub database : Bool
  pub migrations_current : Bool
  pub applied_revision : Option Text
  pub expected_revision : Option Text
  pub detail : Option Text

-- `_reason`
abbrev reason : Text → Option Text
reason error = some (take 200 error)

abbrev compared : Option Text → Option Text → Readiness
compared none applied = record {
  database = true;
  migrations_current = false;
  applied_revision = applied;
  expected_revision = none;
  detail = some (codes "migration scripts not found");
}
compared (some expected) applied = record {
  database = true;
  migrations_current = opt_text_eq applied (some expected);
  applied_revision = applied;
  expected_revision = some expected;
  detail = none;
}

abbrev not_ready : Bool → Option Text → Text → Readiness
not_ready database expected error = record {
  database = database;
  migrations_current = false;
  applied_revision = none;
  expected_revision = expected;
  detail = reason error;
}

abbrev checked_applied : Option Text → Probe (Option Text) → Readiness
checked_applied expected (raised error) = not_ready true expected error
checked_applied expected (answered applied) = compared expected applied

abbrev checked_head : Probe (Option Text) → Probe (Option Text) → Readiness
checked_head (raised error) applied = not_ready true none error
checked_head (answered expected) applied = checked_applied expected applied

unfoldable pub check_readiness : Probes → Readiness
check_readiness probes = elim probes.ping [
  | raised error ↦ not_ready false none error
  | answered _ ↦ checked_head probes.head probes.applied
]

-- `ready`
abbrev pub is_ready : Readiness → Bool
is_ready r = r.database && r.migrations_current

-- The service is ready exactly if the database answers and has the revision that is the scripts' head.
pub check_readiness-ready_iff :
    (head applied : Probe (Option Text)) (ping : Probe (Unit {0}))
    → (is_ready (check_readiness (record { ping = ping; head = head; applied = applied })) ≡ true)
      ↔ ((revision : Text) × (ping ≡ answered tt)
          × (head ≡ answered (some revision))
          × (applied ≡ answered (some revision)))
unfolding check_readiness
check_readiness-ready_iff head applied (raised error) = (λ h. cc, λ (r, p, x, y). cc)
check_readiness-ready_iff (raised error) applied (answered tt) = (λ h. cc, λ (r, p, x, y). cc)
check_readiness-ready_iff (answered none) (raised error) (answered tt) =
    (λ h. cc, λ (r, p, x, y). cc)
check_readiness-ready_iff (answered none) (answered a) (answered tt) = (λ h. cc, λ (r, p, x, y). cc)
check_readiness-ready_iff (answered (some e)) (raised error) (answered tt) =
    (λ h. cc, λ (r, p, x, y). cc)
check_readiness-ready_iff (answered (some e)) (answered none) (answered tt) =
    (λ h. cc, λ (r, p, x, y). cc)
check_readiness-ready_iff (answered (some e)) (answered (some a)) (answered tt) = (
  λ h. (e, refl, refl, ap (λ t. answered (some t)) ((text_eq_iff a e).0 h)),
  λ (r, p, x, y). (text_eq_iff a e).1 cc,
)
