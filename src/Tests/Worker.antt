-- ===== src/Tests/Worker.antt =====
-- The theorems on app/jobs/worker.py at concrete inputs.
use lead_pipe.Prelude.{ℕ, ◌≡◌, refl, some, [], ◌∷◌}
use lead_pipe.Prelude.Unicode.{ascii}
use lead_pipe.Prelude.Texts.{codes, text_eq}
use lead_pipe.Prelude.Tables.{update, select, find}
use lead_pipe.Prelude.Ratios.{percent}
use lead_pipe.Tests.Instances.{phones, emails, urls, platform, formats}
use lead_pipe.Tests.Jobs.{config, after_tick, unlocked}
use lead_pipe.Config.{source_of}
use lead_pipe.Repositories.Sources.{by_name, upsert}
use lead_pipe.Repositories.Jobs.{create as create_row, get as get_job, new_job}
use lead_pipe.Jobs.Queue.{ClaimedJob, claim, oldest, runnable, claimed, fail, heartbeat, start}
use lead_pipe.Jobs.Service.{is_active_for, enqueue_if_idle, upsert_config}
use lead_pipe.Jobs.Worker.{Visit, run_once, maybe_recover, process, raised_by, heartbeats}
use lead_pipe.Jobs.Worker.Alone.{Alone, IsAtRest, Alone-IsAtRest}
use lead_pipe.Jobs.Worker.Atomic.{IsSameData, beaten, run_once-rollback}
use lead_pipe.Pipeline.Run.{run_collection, rejected, crashed, ingest_all, ingest_item}

-- the source yields no record and then fails
abbrev visit : Visit
visit = record {
  locked = unlocked;
  claimed_at = 6000000;
  beats = 16000000 ∷ [];
  collection = λ c. record {
    items = rejected (codes "no row") ∷ [];
    failure = some (crashed (codes "OSError: lost"));
  };
  ran_at = 6000000;
  failed_at = 17000000;
  jitter = percent 50;
}

Alone-IsAtRest_example :
    IsAtRest (run_once config (codes "w1") visit after_tick).1.jobs
    × ((every after loop_now now last : ℕ)
        → (maybe_recover every after loop_now now last
            (run_once config (codes "w1") visit after_tick).1).1
          ≡ (run_once config (codes "w1") visit after_tick).1)
unfolding enqueue_if_idle source_of upsert_config upsert by_name create_row find update text_eq
    is_active_for
Alone-IsAtRest_example = Alone-IsAtRest config (
    Alone.round (codes "w1") visit (
      Alone.fire (codes "web") 4000000 {r = some (new_job 1 4000000 1)} {db' = after_tick}
        Alone.start refl))

abbrev job : ClaimedJob
job = record { id = 1; source_id = 1; source_name = codes "web"; attempts = 1; max_attempts = 3 }

run_once-rollback_example :
    ((run_once config (codes "w1") visit after_tick).1.jobs.rows
      ≡ (fail 17000000
          (percent 50)
          job
          (codes "OSError: lost")
          (beaten config job (codes "w1") visit after_tick).jobs.rows).1)
    × IsSameData after_tick (run_once config (codes "w1") visit after_tick).1
unfolding claim oldest select runnable claimed raised_by process run_collection source_of find
    text_eq upsert_config upsert by_name update get_job ingest_all ingest_item heartbeats heartbeat
    start
run_once-rollback_example =
    run_once-rollback config (codes "w1") visit after_tick job (codes "OSError: lost") refl refl
