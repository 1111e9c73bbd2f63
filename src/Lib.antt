-- ===== src/Lib.antt =====
-- LeadPipe collects business leads from configured sources, normalizes and grades them, joins the
-- records of one company to one lead, and keeps the leads in PostgreSQL. Jobs of collection wait in a
-- table that workers share; contacts that were erased are kept in a list that every run obeys.
--
-- The parts, each with its files of the repository:
-- - Domain: the values that the stages hand on (app/domain/models.py, app/domain/filters.py,
--   app/validation/models.py).
-- - Normalization: Cleaning is app/normalization/text.py; Fields is email.py, phone.py and location.py
--   beside it; Url is url.py; Record is lead.py (`normalize_record`).
-- - Validation: Rules and Lead are app/validation/rules.py and app/validation/lead.py.
-- - Deduplication: Fingerprint, Matcher and Merge are the files of those names in
--   app/deduplication. Their children hold what is shown of them.
-- - Db: app/db/models.py. A table is the list of its rows with the sequence of its ids; `Db` is all the
--   tables. Db/Platform is what the database and hashlib compute.
-- - Repositories: one module for each file of app/repositories. A statement of SQL is a function on
--   the table, by the operations `select`, `find`, `update`, `delete` and `count` of Prelude/Tables.
--   Leads/Pages has the lists and the export of leads.py: its loop takes a bound on the pages, for which
--   one more than the number of leads is enough, since each page but the last brings a lead.
-- - Config: app/config/models.py and app/config/cron.py, and Loader for app/config/loader.py.
-- - Sources: app/sources. Csv, Api and Html are the adapters, Loading what the last two share, Registry
--   is registry.py. An adapter gives a `Collection`, which is what a run takes.
-- - Jobs: Queue is app/jobs/queue.py and Service is app/jobs/service.py. Queue/Lifecycle has the
--   steps of the workers and clients as a relation on the table of jobs, and Service/OneActive
--   those of schedules and workers on the database. Queue/Terminal follows a job that was given up
--   through any of these steps. Scheduler is app/jobs/scheduler.py. Worker is
--   app/jobs/worker.py: a round is a function of what it meets; Worker/Held and Worker/Round have the
--   transactions that it is made of, Worker/Alone the orders of rounds, recoveries and ticks of one
--   worker, and Worker/Atomic its failures.
-- - Pipeline: Stats, Matching, Ingest and Run are the parts of app/pipeline/runner.py: `RunStats`;
--   `_best_match` and `_remerge`; `_ingest`; `run_collection`.
--   Run/Accounts and Run/Counted are about its counters.
-- - Api: the handlers of app/api/routes.py that write; Lists those that read, with app/api/deps.py;
--   Schemas is app/api/schemas.py; Access the requests, and the key that guards some of them.
-- - Exports, Cli and Telemetry: app/exports, app/cli.py and `redact` of app/telemetry.py. Db/Health is
--   app/db/health.py.
-- - Fetch: Network, Urls, Robots, Limits and Client are policy.py with errors.py, urls.py, robots.py,
--   limits.py and client.py of app/fetch. Network also has httpx, the resolver, `ipaddress` and
--   `urllib.robotparser`.
-- - Prelude has what the parts share, Libraries the packages that are called, and Tests runs.
--
-- How the code is read: an exception is `none`, a flag or a constructor of the result. What is
-- updated is passed on: each function that changes rows takes a database and returns one. The time,
-- the jitter, the rows that are locked and what an adapter yields are arguments. A `datetime` and a
-- `timedelta` are numbers of microseconds, a text is its list of code points, a mapping the list of
-- its items, and a float a fraction, compared exactly. `phonenumbers`, `email_validator`,
-- `urllib.parse`, `json`, `csv`, `bs4`, pydantic's validation of options, `pg_trgm`, SHA-256 and the
-- tables of Unicode are the records of Libraries, Sources/Registry, Db/Platform and Prelude/Unicode;
-- those of Fetch are in Fetch/Network. Laws of them are assumed only in Sources/Api/Paging and
-- Exports/Written, each by name. The texts of errors that these packages raise, and of those of
-- app/fetch, are arguments.
--
-- A transaction is one step: the locks of rows (FOR UPDATE, SKIP LOCKED) are why the statements of
-- one do not interleave with those of another. In the relations of steps a worker starts, finishes or
-- fails only a job that it still holds. The export and the substitution of variables run on fuel; for
-- the latter, the length of the text is enough, since each step reads a character. All other
-- recursion is on lists, or on the redirects, the attempts or the pages that are left.
--
-- Not modelled: the parsing of YAML and of settings, the timers of the scheduler and the worker, the
-- wiring of FastAPI and its middleware, the options and the output of the commands, the configuration
-- of the logs, the engine of the database and the migrations. They are input and output around the
-- parts above, or they only call packages. The order of the list of suppressions, which is that of the
-- database's collation, is a parameter. An error of the database, also one that `run_collection`
-- catches around `_ingest`, a worker's process that is killed, and the overflow of the float in
-- `backoff_seconds`, which takes more than 1024 attempts, are left out. Of a limit on HTML items a
-- negative one is left out, and of `href` a list of values, which it never is.
pub mod Prelude
pub mod Domain
pub mod Db
pub mod Libraries
pub mod Fetch
pub mod Normalization
pub mod Tests
pub mod Cli
pub mod Telemetry
pub mod Exports
pub mod Sources
pub mod Validation
pub mod Deduplication
pub mod Config
pub mod Repositories
pub mod Jobs
pub mod Api
pub mod Pipeline
