-- ===== src/Normalization/Record.antt =====
-- app/normalization/lead.py
use lead_pipe.Prelude.{not, Option, none, some, ◌==◌, length, if◌then◌else◌}
use lead_pipe.Prelude.Unicode.{Unicode}
use lead_pipe.Prelude.Tables.{select}
use lead_pipe.Prelude.Texts.{Text, codes, mem_text}
use lead_pipe.Domain.{Dict, get, lead_fields, RawRecord, NormalizedLead}
use lead_pipe.Libraries.{Phones, Urls}
use lead_pipe.Normalization.Cleaning.{clean_text, normalize_company_name, normalize_person_name}
use lead_pipe.Normalization.Fields.{
  normalize_email, normalize_phone, normalize_country, normalize_city,
}
use lead_pipe.Normalization.Url.{normalize_url, extract_domain}

-- `record.fields.get(name)`: a missing field and one that is `None` are alike
abbrev pub field : Text → Dict (Option Text) → Option Text
field name fields = elim (get name fields) [ none ↦ none | some v ↦ v ]

-- the region that a phone number is read in
unfoldable pub region_for : Option Text → Option Text → Option Text
region_for (some region) country = some region
region_for none none = none
region_for none (some country) = if length country == 2 then some country else none

module _ ⦃u : Unicode⦄ ⦃p : Phones⦄ ⦃w : Urls⦄ where
  unfoldable pub normalize_record : RawRecord → Option Text → NormalizedLead
  normalize_record raw default_region =
      let fields = raw.fields in
      let website = normalize_url (field (codes "website") fields) in
      let country = normalize_country (field (codes "country") fields) in
      record {
        source = raw.source;
        collected_at = raw.collected_at;
        company_name = normalize_company_name (field (codes "company_name") fields);
        contact_name = normalize_person_name (field (codes "contact_name") fields);
        website = website;
        website_domain = extract_domain website;
        email = normalize_email (field (codes "email") fields);
        phone = normalize_phone (field (codes "phone") fields) (region_for default_region country);
        address = clean_text (field (codes "address") fields);
        city = normalize_city (field (codes "city") fields);
        country = country;
        extra = select (λ kv. not (mem_text kv.0 lead_fields)) fields;
      }
