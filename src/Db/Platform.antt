-- ===== src/Db/Platform.antt =====
-- What the repositories ask of PostgreSQL's extension `pg_trgm` and of `hashlib`, as parameters.
use lead_pipe.Prelude.{List}
use lead_pipe.Prelude.Ratios.{Ratio}
use lead_pipe.Prelude.Texts.{Text}
use lead_pipe.Db.{Payload, Suppression}

pub record Platform : Type 0 where
  -- `similarity(a, b)` of the database
  pub similarity : Text → Text → Ratio
  -- `lower(text)` of the database
  pub lower : Text → Text
  -- `array_agg(distinct ...)` of texts
  pub distinct : List Text → List Text
  -- the entries by their kinds and values, in the order of the database
  pub by_kind_value : List Suppression → List Suppression
  -- the first 64 hexadecimal digits of the SHA-256 of a payload's JSON
  pub digest : Payload → Text
