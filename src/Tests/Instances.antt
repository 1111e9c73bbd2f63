-- ===== src/Tests/Instances.antt =====
-- Small instances of the libraries, for the tests.
use lead_pipe.Prelude.{none, some, [], ◌++◌}
use lead_pipe.Prelude.Texts.{Text, codes, contains, starts_with, join}
use lead_pipe.Prelude.Decimal.{str}
use lead_pipe.Prelude.Ratios.{percent}
use lead_pipe.Libraries.{Phones, Emails, Urls, SplitUrl, Formats}
use lead_pipe.Db.{Payload}
use lead_pipe.Db.Platform.{Platform}

instance abbrev pub phones : Phones
phones = record {
  Number = Text;
  parse = λ value region. some value;
  is_valid_number = starts_with (codes "+358");
  format_e164 = λ n. n;
}

instance abbrev pub emails : Emails
emails = record { validate_email = contains (codes "@") }

abbrev pub split : Text → SplitUrl
split value = record {
  scheme = codes "https";
  netloc = value;
  path = [];
  query = [];
  fragment = [];
  hostname = some value;
  port = some none;
}

instance abbrev pub urls : Urls
urls = record {
  urlsplit = λ value. some (split value);
  urlunsplit = λ scheme netloc path query fragment. netloc;
  urljoin = λ base url. some url;
  parse_qsl = λ keep_blank query. [];
  urlencode = λ pairs. [];
}

instance abbrev pub platform : Platform
platform = record {
  similarity = λ a b. percent 0;
  lower = λ t. t;
  distinct = λ ts. ts;
  by_kind_value = λ entries. entries;
  digest = λ (p : Payload). codes "d";
}

-- `csv.writer`, of cells that need no quotes
instance abbrev pub formats : Formats
formats = record {
  repr = λ t. codes "'" ++ (t ++ codes "'");
  isoformat = λ t. str t;
  dumps = λ j. codes "{}";
  writerow = λ cells. join (codes ",") cells ++ codes "\n";
}
