-- ===== src/Tests/Sources.antt =====
-- The theorems on app/sources at concrete inputs.
use lead_pipe.Prelude.{
  ◌+◌, ◌*◌, ◌≤◌, ◌≡◌, refl, true, false, not, none, some, [], ◌∷◌, map, inr, length,
}
use lead_pipe.Prelude.Unicode.{ascii}
use lead_pipe.Prelude.Ints.{pos}
use lead_pipe.Prelude.Texts.{Text, codes, mem_text, text_eq}
use lead_pipe.Prelude.Tables.{count}
use lead_pipe.Tests.Instances.{phones, emails, urls, platform}
use lead_pipe.Tests.Fetch.{network, policy, idle}
use lead_pipe.Domain.{text, object, member, end, array, cons, nil}
use lead_pipe.Libraries.{Values, Markup, CsvRow, CsvTable, one_value}
use lead_pipe.Config.{SourceConfig}
use lead_pipe.Db.{empty_db}
use lead_pipe.Fetch.Network.{FetchError}
use lead_pipe.Fetch.Client.Safe.{AllAllowed}
use lead_pipe.Fetch.Client.Bounds.{sent}
use lead_pipe.Pipeline.Stats.{no_stats}
use lead_pipe.Pipeline.Ingest.{Context}
use lead_pipe.Pipeline.Run.{source_error, ingest_all}
use lead_pipe.Sources.Csv.{CsvOptions, to_record}
use lead_pipe.Sources.Csv as Csv
use lead_pipe.Sources.Csv.Header.{lacks_column, collect-by_header}
use lead_pipe.Sources.Csv.Rows.{ingest_all-rows}
use lead_pipe.Sources.Api.{ApiOptions}
use lead_pipe.Sources.Api as Api
use lead_pipe.Sources.Api.Requests as ApiRequests
use lead_pipe.Sources.Html.{HtmlOptions}
use lead_pipe.Sources.Registry.{html_source, collect, collect-AllAllowed}

abbrev source : SourceConfig
source = record {
  name = codes "web";
  type = codes "csv";
  enabled = true;
  priority = pos 3;
  region = none;
  mapping = (codes "company_name", codes "Name") ∷ [];
  schedule = none;
  options = [];
}

abbrev csv_options : CsvOptions
csv_options = record {
  path = codes "leads.csv";
  external_id_field = some (codes "Id");
  source_url_field = none;
}

-- a row, and one that is longer than the header
abbrev file : CsvTable
file = record {
  fieldnames = some (codes "Id" ∷ codes "Name" ∷ []);
  rows =
      record {
        cells = (codes "Id", some (codes "7")) ∷ (codes "Name", some (codes " Acme ")) ∷ [];
        has_overflow = false;
      }
      ∷ record { cells = (codes "Id", some (codes "8")) ∷ []; has_overflow = true }
      ∷ [];
  failure = none;
}

collect-by_header_example :
    (lacks_column source file ≡ true
      → ((Csv.collect source csv_options 5000000 (some file)).items ≡ [])
        × ((message : Text) × ((Csv.collect source csv_options 5000000 (some file)).failure
              ≡ some (source_error message))))
    × (lacks_column source file ≡ false
        → (Csv.collect source csv_options 5000000 (some file)).items
          ≡ map (to_record source csv_options 5000000) file.rows)
collect-by_header_example = collect-by_header source csv_options 5000000 file

abbrev context : Context
context = record { source_id = 1; priority = pos 3; region = none; job_id = 1; now = 6000000 }

ingest_all-rows_example :
    let s =
      (ingest_all context
        (record { emails = []; domains = [] })
        (Csv.collect source csv_options 5000000 (some file)).items
        no_stats
        empty_db).0 in
    (s.collected ≡ count (λ (r : CsvRow). not r.has_overflow) file.rows)
    × (count (λ (r : CsvRow). r.has_overflow) file.rows ≤ s.errors)
    × (s.errors ≤ length file.rows)
unfolding mem_text text_eq
ingest_all-rows_example =
    ingest_all-rows source csv_options 5000000 file context (record { emails = []; domains = [] })
      empty_db refl

abbrev describe : FetchError → Text
describe error = codes "refused"

instance abbrev json : Values
json = record {
  loads = λ body. inr (array (cons (object (member (codes "Name") (text (codes "Acme")) end)) nil));
  str_of = λ value. codes "Acme";
  is_true = λ value. true;
  int_of = λ value. none;
}

-- a page with two entries, each of which links to its details
instance abbrev markup : Markup
markup = record {
  Node = Text;
  soup = λ parser body. some body;
  select_all = λ selector page. some (codes "a" ∷ codes "b" ∷ []);
  select_one = λ selector node. some (some node);
  attribute = λ name node. some (one_value (codes "acme.fi"));
  get_text = λ node. codes "Acme";
  str_of_node = λ node. node;
}

abbrev api_options : ApiOptions
api_options = record {
  url = codes "acme.fi";
  items_path = none;
  next_path = none;
  page_param = some (codes "page");
  start_page = pos 1;
  max_pages = 20;
  external_id_field = none;
  source_url_field = none;
}

collect-sent_le_example :
    sent policy (Api.collect describe source api_options policy 5000000 idle).1
    ≤ sent policy idle + 20 * ((5 + 1) * (2 + 2))
collect-sent_le_example =
    ApiRequests.collect-sent_le describe source api_options policy 5000000 idle

abbrev html_options : HtmlOptions
html_options = record {
  url = codes "acme.fi";
  item_selector = codes ".entry";
  detail_link = some (codes "a@href");
  detail_mapping = (codes "email", codes ".mail") ∷ [];
  next_selector = some (codes ".next");
  max_pages = 20;
  max_items = some 1;
  parser = codes "lxml";
}

collect-AllAllowed_example :
    AllAllowed policy
      (collect describe
        (codes "bad selector")
        none
        source
        5000000
        (html_source html_options policy)
        idle).1
collect-AllAllowed_example =
    collect-AllAllowed describe (codes "bad selector") none source 5000000
      (html_source html_options policy) policy idle refl tt
