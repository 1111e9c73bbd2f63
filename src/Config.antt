-- ===== src/Config.antt =====
-- app/config/models.py: the configuration, after pydantic has read its fields.
pub mod Cron
pub mod Loader
use lead_pipe.Prelude.{
  ℕ, ◌<◌, ◌≡◌, Bool, true, false, ◌&&◌, Option, none, some, List, [], ◌∷◌, map, arith, ltb, any,
  if◌then◌else◌,
}
use lead_pipe.Prelude.Ints.{ℤ}
use lead_pipe.Prelude.Texts.{Text, text_eq}
use lead_pipe.Prelude.Tables.{select, find, count}
use lead_pipe.Domain.{Dict, Json}

pub record ScheduleConfig : Type 0 where
  pub enabled : Bool
  pub cron : Text
  pub timezone : Text

-- `options` are the keys that the model does not name (`model_extra`)
pub record SourceConfig : Type 0 where
  pub name : Text
  pub type : Text
  pub enabled : Bool
  pub priority : ℤ
  pub region : Option Text
  pub mapping : Dict Text
  pub schedule : Option ScheduleConfig
  pub options : Dict Json

pub record AppConfig : Type 0 where
  -- `defaults.region`
  pub region : Option Text
  pub sources : List SourceConfig

abbrev pub names : List SourceConfig → List Text
names = map (λ s. s.name)

-- `names.count(name) > 1`
abbrev repeats : List Text → Text → Bool
repeats all name = ltb 1 (count (text_eq name) all)

-- whether `names_must_be_unique` returns the sources (and does not raise)
unfoldable pub names_must_be_unique : List SourceConfig → Bool
names_must_be_unique sources = if any (repeats (names sources)) (names sources) then false else true

-- `config.source(name)`; `none` is the `KeyError`
unfoldable pub source_of : AppConfig → Text → Option SourceConfig
source_of config name = find (λ s. text_eq s.name name) config.sources

unfoldable pub enabled_sources : AppConfig → List SourceConfig
enabled_sources config = select (λ s. s.enabled) config.sources

abbrev is_scheduled : SourceConfig → Bool
is_scheduled s = elim s.schedule [ none ↦ false | some c ↦ c.enabled ]

unfoldable pub scheduled_sources : AppConfig → List SourceConfig
unfolding enabled_sources
scheduled_sources config = select is_scheduled (enabled_sources config)
