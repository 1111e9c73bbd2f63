-- ===== src/Repositories/Sources.antt =====
-- app/repositories/sources.py
use lead_pipe.Prelude.{ℕ, Bool, Option, none, some, ◌==◌}
use lead_pipe.Prelude.Ints.{ℤ}
use lead_pipe.Prelude.Texts.{Text, text_eq}
use lead_pipe.Prelude.Tables.{find}
use lead_pipe.Domain.{Dict, Json}
use lead_pipe.Db.{Db, Source}
use lead_pipe.Db.Tables.{add, update_rows}

unfoldable pub by_name : Text → Db → Option Source
by_name name db = find (λ s. text_eq s.name name) db.sources.rows

-- the assignments to a source, found or new
abbrev assign : Text → ℤ → Bool → Dict Json → Source → Source
assign type priority enabled config s = record s {
  type = type;
  priority = priority;
  enabled = enabled;
  config = config;
}

abbrev fresh : Text → Text → ℤ → Bool → Dict Json → ℕ → Source
fresh name type priority enabled config id = record {
  id = id;
  name = name;
  type = type;
  priority = priority;
  enabled = enabled;
  config = config;
}

-- the source's row, and the database
unfoldable pub upsert : Text → Text → ℤ → Bool → Dict Json → Db → Source × Db
unfolding by_name
upsert name type priority enabled config db = elim (by_name name db) [
  | none ↦ (
    fresh name type priority enabled config db.sources.next_id,
    record db { sources = add (fresh name type priority enabled config) db.sources },
  )
  | some s ↦ (
    assign type priority enabled config s,
    record db {
      sources = update_rows (λ r. r.id == s.id) (assign type priority enabled config) db.sources;
    },
  )
]
