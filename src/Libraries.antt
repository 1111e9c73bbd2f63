-- ===== src/Libraries.antt =====
-- What the program uses of Python and of the packages that it does not contain: `phonenumbers`,
-- `email_validator`, `urllib.parse`, `json`, `csv` and `bs4`. Each is the operations that are called, as
-- parameters.
use lead_pipe.Prelude.{ℕ, Bool, Option, List, ◌⊎◌}
use lead_pipe.Prelude.Ints.{ℤ}
use lead_pipe.Prelude.Texts.{Text}
use lead_pipe.Domain.{Dict, Json}

-- `phonenumbers.parse` (`none` is `NumberParseException`), `is_valid_number` and `format_number` as E.164
pub record Phones : Type 1 where
  pub Number : Type 0
  pub parse : Text → Option Text → Option Number
  pub is_valid_number : Number → Bool
  pub format_e164 : Number → Text

-- whether `validate_email(value, check_deliverability=False, test_environment=True)` returns
pub record Emails : Type 0 where
  pub validate_email : Text → Bool

-- the parts that `urlsplit` finds; reading `port` raises `ValueError` where it is `none`
pub record SplitUrl : Type 0 where
  pub scheme : Text
  pub netloc : Text
  pub path : Text
  pub query : Text
  pub fragment : Text
  pub hostname : Option Text
  pub port : Option (Option ℕ)

-- `urlsplit` and `urljoin` are `none` where they raise `ValueError`
pub record Urls : Type 0 where
  pub urlsplit : Text → Option SplitUrl
  pub urlunsplit : Text → Text → Text → Text → Text → Text
  pub urljoin : Text → Text → Option Text
  pub parse_qsl : Bool → Text → List (Text × Text)
  pub urlencode : List (Text × Text) → Text

-- The texts that Python and its libraries write: `repr` of a text, `isoformat` of a time, and a row of
-- `csv.writer`.
pub record Formats : Type 0 where
  pub repr : Text → Text
  pub isoformat : ℕ → Text
  pub writerow : List Text → Text
  -- `json.dumps(..., ensure_ascii=False)`
  pub dumps : Json → Text

-- `json.loads`, whose other case is the text of its error, and Python's functions on such values
pub record Values : Type 0 where
  pub loads : Text → Text ⊎ Json
  pub str_of : Json → Text
  pub is_true : Json → Bool
  pub int_of : Text → Option ℤ

-- a row of `csv.DictReader`: its items, and whether there are more cells than names
pub record CsvRow : Type 0 where
  pub cells : Dict (Option Text)
  pub has_overflow : Bool

-- `csv.DictReader` of an open file: the rows, and the error that ends the reading, if one does
pub record CsvTable : Type 0 where
  pub fieldnames : Option (List Text)
  pub rows : List CsvRow
  pub failure : Option Text

-- an attribute of a tag, which is a list for `class` and the like
pub data Attribute : Type 0 where
  one_value : Text → Attribute
  many_values : List Text → Attribute

-- `bs4`: a node is a `Tag`; `none` is where a selector or the parser's name is refused
pub record Markup : Type 1 where
  pub Node : Type 0
  pub soup : Text → Text → Option Node
  pub select_all : Text → Node → Option (List Node)
  pub select_one : Text → Node → Option (Option Node)
  pub attribute : Text → Node → Option Attribute
  pub get_text : Node → Text
  pub str_of_node : Node → Text
