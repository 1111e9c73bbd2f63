-- ===== src/Sources/Loading.antt =====
-- `_load` of app/sources/api_source.py and of app/sources/html_source.py, up to the text of the page.
-- The headers that the adapters send are constants of the network.
use lead_pipe.Prelude.{none, some, [], ◌++◌, leb, if◌then◌else◌}
use lead_pipe.Prelude.Texts.{Text, codes}
use lead_pipe.Prelude.Decimal.{str}
use lead_pipe.Libraries.{Urls}
use lead_pipe.Fetch.Network.{FetchPolicy, FetchError, value_error, Result, ok, failed, Network}
use lead_pipe.Fetch.Client.{FetchResponse, Session, get}
use lead_pipe.Pipeline.Run.{Failure, source_error, crashed, Collection}

pub data Loaded {ℓ} (A : Type ℓ) : Type ℓ where
  loaded : A → Loaded A
  unusable : Failure → Loaded A

-- f"source '{name}': {message}"
abbrev pub problem : Text → Text → Text
problem name message = codes "source '" ++ (name ++ (codes "': " ++ message))

abbrev pub no_items : Collection
no_items = record { items = []; failure = none }

abbrev pub only_failure : Failure → Collection
only_failure f = record { items = []; failure = some f }

-- `describe` is the text of an error, which the model of the client leaves out
module _ ⦃n : Network⦄ ⦃w : Urls⦄ (describe : FetchError → Text) where
  -- a `ValueError` is no `FetchError`, and is not caught
  abbrev pub failure_of : Text → FetchError → Failure
  failure_of name value_error = crashed (describe value_error)
  failure_of name e = source_error (problem name (describe e))

  -- what the answer is good for
  abbrev pub checked : Text → Text → Result FetchResponse → Loaded Text
  checked name url (failed e) = unusable (failure_of name e)
  checked name url (ok r) =
      if leb 400 r.status_code
      then unusable (
          source_error
            (problem name (codes "HTTP " ++ (str r.status_code ++ (codes " for " ++ url)))))
      else loaded (n.decode r.content)

  unfoldable pub load_text : Text → FetchPolicy → Text → Session → Loaded Text × Session
  load_text name policy url s = let (r, s') = get policy url s in (checked name url r, s')
