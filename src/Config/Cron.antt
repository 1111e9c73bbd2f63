-- ===== src/Config/Cron.antt =====
-- app/config/cron.py: POSIX cron expressions for a scheduler that names the days of the week.
use lead_pipe.Prelude.{
  ℕ, Bool, true, false, Option, none, some, List, [], ◌∷◌, ◌++◌, map, ◌==◌, if◌then◌else◌,
}
use lead_pipe.Prelude.Unicode.{Unicode}
use lead_pipe.Prelude.Texts.{Text, codes, is_space, strip_by, split_on, join, truthy}
use lead_pipe.Prelude.Tables.{select}
use lead_pipe.Domain.{Dict, get}

abbrev pub posix_days : Dict Text
posix_days =
    (codes "0", codes "sun")
    ∷ (codes "1", codes "mon")
    ∷ (codes "2", codes "tue")
    ∷ (codes "3", codes "wed")
    ∷ (codes "4", codes "thu")
    ∷ (codes "5", codes "fri")
    ∷ (codes "6", codes "sat")
    ∷ (codes "7", codes "sun")
    ∷ []

-- `s.partition(c)`: what stands before the first `c`, whether it is there, and the rest
abbrev keep_left : ℕ → Text × Bool × Text → Text × Bool × Text
keep_left c (before, found, rest) = (c ∷ before, found, rest)

unfoldable pub partition : ℕ → Text → Text × Bool × Text
partition sep [] = ([], false, [])
partition sep (c ∷ s) =
    let rest = partition sep s in if c == sep then ([], true, s) else keep_left c rest

module _ ⦃u : Unicode⦄ where
  unfoldable pub day : Text → Text
  unfolding strip_by is_space get
  day value =
      let cleaned = u.lower (strip_by is_space value) in
      elim (get cleaned posix_days) [ none ↦ cleaned | some name ↦ name ]

  abbrev range : Text × Bool × Text → Text → Text
  range (start, dash, end) value = if dash then day start ++ (codes "-" ++ day end) else day value

  abbrev with_step : Text × Bool × Text → Text
  with_step (value, slash, step) =
      range (partition b'-' value) value ++ (if slash then codes "/" ++ step else [])

  -- `_token`
  unfoldable pub token : Text → Text
  unfolding day partition
  token t = with_step (partition b'/' t)

  unfoldable pub translate_day_of_week : Text → Text
  unfolding token join split_on
  translate_day_of_week field = join (codes ",") (map token (split_on (λ c. c == b',') field))

-- `s.split()`: the words between runs of whitespace
unfoldable pub words : Text → List Text
unfolding split_on is_space
words s = select truthy (split_on is_space s)

pub record CronFields : Type 0 where
  pub minute : Text
  pub hour : Text
  pub day : Text
  pub month : Text
  pub day_of_week : Text

module _ ⦃u : Unicode⦄ where
  unfoldable pub five_fields : List Text → Option CronFields
  unfolding translate_day_of_week
  five_fields (m ∷ h ∷ d ∷ n ∷ w ∷ []) =
      some
        (record { minute = m; hour = h; day = d; month = n; day_of_week = translate_day_of_week w })
  five_fields _ = none

  -- what `build_trigger` hands to APScheduler's `CronTrigger`; `none` is its own `ValueError`
  unfoldable pub build_trigger : Text → Option CronFields
  unfolding words five_fields
  build_trigger expression = five_fields (words expression)
