-- ===== src/Tests/Api.antt =====
-- The theorems on app/api, app/exports and app/config/loader.py at concrete inputs.
use lead_pipe.Prelude.{
  ℕ, ◌≡◌, refl, true, none, some, Option, List, [], ◌∷◌, map, arith, if◌then◌else◌,
}
use lead_pipe.Prelude.Unicode.{ascii}
use lead_pipe.Prelude.Texts.{Text, codes, text_eq}
use lead_pipe.Prelude.Tables.{select, delete}
use lead_pipe.Tests.Instances.{phones, emails, urls, platform, formats}
use lead_pipe.Tests.Pipeline.{stored, config}
use lead_pipe.Repositories.Leads.Pages.{conditions}
use lead_pipe.Api.Lists.{Settings, no_filter}
use lead_pipe.Api.Lists.Cursors.{out, follow, follow-select}
use lead_pipe.Api.Access.{erase, handle, handle-needs_key}
use lead_pipe.Db.{Db, Suppression, SuppressionKind, empty_db}
use lead_pipe.Repositories.Suppressions.{normalize_value}
use lead_pipe.Cli.{suppress}
use lead_pipe.Cli.Removal.{suppress-removes}
use lead_pipe.Config.Loader.{substitute}
use lead_pipe.Config.Loader.Templates.{
  Segment, plain, variable, template, filled, substitute-template,
}

follow-select_example :
    follow 2 no_filter 1 0 stored
    ≡ some (map (out stored) (select (conditions no_filter stored) stored.leads.rows))
follow-select_example =
    follow-select 2 no_filter 1 stored (omega arith) (omega arith, tt) (tt, tt) (omega arith)

abbrev settings : Settings
settings = record { api_key = some (codes "secret"); default_page_size = 50; max_page_size = 200 }

handle-needs_key_example :
    (handle settings config 6000000 1 (some (codes "guess")) (erase 1 true) stored).1 ≡ stored
unfolding text_eq
handle-needs_key_example =
    handle-needs_key settings config 6000000 1 (codes "secret") (some (codes "guess"))
      (erase 1 true) stored refl refl refl

-- one variable that is set and one that is not
abbrev env : Text → Option Text
env name = if text_eq name (codes "HOST") then some (codes "db") else none

abbrev segments : List Segment
segments =
    plain (codes "pg://")
    ∷ variable (codes "HOST") none
    ∷ plain (codes ":")
    ∷ variable (codes "PORT_1") (some (codes "5432"))
    ∷ []

substitute-template_example : substitute env (template segments) ≡ filled env segments
substitute-template_example = substitute-template env segments refl

abbrev entry : ℕ → SuppressionKind → Text → Suppression
entry id kind value = record { id = id; kind = kind; value = value; reason = none }

-- an address that is suppressed, and a domain
abbrev suppressing : Db
suppressing = record empty_db {
  suppressions = record {
    rows =
        entry 1 SuppressionKind.email (codes "ann@acme.fi")
        ∷ entry 2 SuppressionKind.domain (codes "acme.fi")
        ∷ [];
    next_id = 3;
  };
}

suppress-removes_example :
    (suppress SuppressionKind.email (codes "Ann@acme.fi") none true suppressing).1.suppressions.rows
    ≡ delete
        (λ s. text_eq s.value (normalize_value SuppressionKind.email (codes "Ann@acme.fi")))
        suppressing.suppressions.rows
suppress-removes_example =
    suppress-removes SuppressionKind.email (codes "Ann@acme.fi") none suppressing
      ((omega arith, tt), (tt, tt))
