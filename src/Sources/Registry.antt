-- ===== src/Sources/Registry.antt =====
-- app/sources/registry.py: the adapter of a source by its type. What pydantic makes of the options is an
-- argument.
use mathlib.Core.Path.{subst}
use lead_pipe.Prelude.{ℕ, ◌≡◌, Option, none, some, List, [], ◌∷◌, ◌++◌, map, inl, inr, ◌⊎◌}
use lead_pipe.Prelude.Texts.{Text, codes, join}
use lead_pipe.Prelude.Orders.{sort_by, text_order}
use lead_pipe.Domain.{Dict, Json, get}
use lead_pipe.Libraries.{Urls, Values, Markup, CsvTable}
use lead_pipe.Config.{SourceConfig}
use lead_pipe.Fetch.Network.{FetchPolicy, FetchError, Network}
use lead_pipe.Fetch.Client.{Session}
use lead_pipe.Fetch.Client.Safe.{AllAllowed}
use lead_pipe.Pipeline.Run.{source_error, Collection}
use lead_pipe.Sources.Loading.{Loaded, loaded, unusable, problem, only_failure}
use lead_pipe.Sources.Csv.{CsvOptions}
use lead_pipe.Sources.Csv as Csv
use lead_pipe.Sources.Api.{ApiOptions}
use lead_pipe.Sources.Api as Api
use lead_pipe.Sources.Html.{HtmlOptions}
use lead_pipe.Sources.Html as Html
use lead_pipe.Sources.Api.Requests as ApiRequests
use lead_pipe.Sources.Html.Requests as HtmlRequests

-- `model_validate` of the three models, whose other case is the text of the `ValueError`, and
-- `FetchPolicy.from_options`
pub record Models : Type 0 where
  pub csv_options : Dict Json → Text ⊎ CsvOptions
  pub api_options : Dict Json → Text ⊎ ApiOptions
  pub html_options : Dict Json → Text ⊎ HtmlOptions
  pub policy : Dict Json → FetchPolicy

pub data Adapter : Type 0 where
  csv_source : CsvOptions → Adapter
  api_source : ApiOptions → FetchPolicy → Adapter
  html_source : HtmlOptions → FetchPolicy → Adapter

-- the policy that an adapter fetches by, if it fetches
abbrev pub policy_of : Adapter → Option FetchPolicy
policy_of (csv_source options) = none
policy_of (api_source options policy) = some policy
policy_of (html_source options policy) = some policy

abbrev validated : {A : Type 0} → SourceConfig → (A → Adapter) → Text ⊎ A → Loaded Adapter
validated config make (inl error) = unusable (source_error (problem config.name error))
validated config make (inr options) = loaded (make options)

module _ ⦃o : Models⦄ where
  -- the constructors
  unfoldable pub new_csv : SourceConfig → Loaded Adapter
  new_csv config = validated config csv_source (o.csv_options config.options)

  unfoldable pub new_api : SourceConfig → Loaded Adapter
  new_api config =
      validated config (λ options. api_source options (o.policy config.options))
        (o.api_options config.options)

  unfoldable pub new_html : SourceConfig → Loaded Adapter
  new_html config =
      validated config (λ options. html_source options (o.policy config.options))
        (o.html_options config.options)

  -- `_REGISTRY`
  unfoldable pub registry : Dict (SourceConfig → Loaded Adapter)
  registry = (codes "csv", new_csv) ∷ (codes "api", new_api) ∷ (codes "html", new_html) ∷ []

  unfoldable pub registered_types : List Text
  registered_types = sort_by text_order (λ name. name) (map (λ (name, factory). name) registry)

  unfoldable pub build_source : SourceConfig → Loaded Adapter
  build_source config = elim (get config.type registry) [
    | some factory ↦ factory config
    | none ↦ unusable (
        source_error (
          codes "unknown source type '"
          ++ (config.type
              ++ (codes "' (registered: " ++ (join (codes ", ") registered_types ++ codes ")")))))
  ]

module _ ⦃n : Network⦄ ⦃w : Urls⦄ ⦃v : Values⦄ ⦃m : Markup⦄ (describe : FetchError → Text)
    (refused : Text) (file : Option CsvTable) (config : SourceConfig) (collected_at : ℕ) where
  -- `adapter.collect()`
  unfoldable pub collect : Adapter → Session → Collection × Session
  collect (csv_source options) s = (Csv.collect config options collected_at file, s)
  collect (api_source options policy) s = Api.collect describe config options policy collected_at s
  collect (html_source options policy) s =
      Html.collect describe refused config options policy collected_at s

  abbrev pub collect_built : Loaded Adapter → Session → Collection × Session
  collect_built (unusable f) s = (only_failure f, s)
  collect_built (loaded adapter) s = collect adapter s

  -- what a run consumes: `build_source` and `collect`
  unfoldable pub collection_of : ⦃o : Models⦄ → Session → Collection × Session
  collection_of s = collect_built (build_source config) s

  -- Whatever the adapter, its options, and the pages that servers answer with: an adapter that fetches
  -- by a policy sends requests only to urls that the check of addresses lets pass under that policy,
  -- and to the robots.txt of their origins, also for the next pages and the pages of details.
  pub collect-AllAllowed :
      (adapter : Adapter) (policy : FetchPolicy) (s : Session)
      → policy_of adapter ≡ some policy
      → AllAllowed policy s
      → AllAllowed policy (collect adapter s).1
  unfolding collect
  collect-AllAllowed (csv_source options) policy s e h = h
  collect-AllAllowed (api_source options used) policy s e h =
      let same : used ≡ policy = cc in
      subst
        (λ q.
          AllAllowed q s → AllAllowed q (Api.collect describe config options used collected_at s).1)
        same (ApiRequests.collect-AllAllowed describe config options used collected_at s) h
  collect-AllAllowed (html_source options used) policy s e h =
      let same : used ≡ policy = cc in
      subst
        (λ q.
          AllAllowed q s
          → AllAllowed q (Html.collect describe refused config options used collected_at s).1)
        same (HtmlRequests.collect-AllAllowed describe refused config options used collected_at s) h
