-- ===== src/Repositories/Suppressions.antt =====
-- app/repositories/suppressions.py: the contacts that are not to be collected again.
pub mod Listed
use lead_pipe.Prelude.{
  ℕ, ◌+◌, ◌≡◌, Bool, true, false, ◌&&◌, ◌||◌, Option, none, some, List, [], ◌∷◌, ◌++◌, map, ◌==◌,
  ltb, if◌then◌else◌,
}
use lead_pipe.Prelude.Unicode.{Unicode}
use lead_pipe.Prelude.Texts.{Text, codes, text_eq, mem_text, truthy, is_space, strip_by}
use lead_pipe.Prelude.Tables.{select, find, count}
use lead_pipe.Domain.{NormalizedLead}
use lead_pipe.Libraries.{Urls}
use lead_pipe.Normalization.Fields.{normalize_email}
use lead_pipe.Normalization.Url.{normalize_url, extract_domain}
use lead_pipe.Db.{Db, Suppression, SuppressionKind}
use lead_pipe.Db.Platform.{Platform}
use lead_pipe.Db.Tables.{Table, add, delete_rows}

pub record SuppressionList : Type 0 where
  pub emails : List Text
  pub domains : List Text

-- `value and value in values`
abbrev pub listed : Option Text → List Text → Bool
listed none values = false
listed (some v) values = truthy v && mem_text v values

unfoldable pub blocks : SuppressionList → NormalizedLead → Option Text
blocks l lead =
    if listed lead.email l.emails
    then some (codes "email")
    else if listed lead.website_domain l.domains
    then some (codes "domain")
    else none

abbrev pub same_kind : SuppressionKind → SuppressionKind → Bool
same_kind SuppressionKind.email SuppressionKind.email = true
same_kind SuppressionKind.domain SuppressionKind.domain = true
same_kind _ _ = false

-- `value.strip().lower()`
abbrev pub lowered : ⦃u : Unicode⦄ → Text → Text
lowered ⦃u⦄ value = u.lower (strip_by is_space value)

-- `normalized or fallback`
abbrev pub or_text : Option Text → Text → Text
or_text none d = d
or_text (some v) d = if truthy v then v else d

module _ ⦃u : Unicode⦄ ⦃w : Urls⦄ where
  unfoldable pub normalize_value : SuppressionKind → Text → Text
  normalize_value SuppressionKind.email value =
      or_text (normalize_email (some value)) (lowered value)
  normalize_value SuppressionKind.domain value =
      or_text (extract_domain (normalize_url (some value))) (lowered value)

abbrev pub values : SuppressionKind → List Suppression → List Text
values kind entries = map (λ s. s.value) (select (λ s. same_kind s.kind kind) entries)

unfoldable pub list_all : ⦃g : Platform⦄ → Db → List Suppression
list_all ⦃g⦄ db = g.by_kind_value db.suppressions.rows

-- of `list_all`, as sets, for which its order does not matter
unfoldable pub load : Db → SuppressionList
load db = record {
  emails = values SuppressionKind.email db.suppressions.rows;
  domains = values SuppressionKind.domain db.suppressions.rows;
}

abbrev pub is_entry : SuppressionKind → Text → Suppression → Bool
is_entry kind value s = same_kind s.kind kind && text_eq s.value value

abbrev pub new_entry : SuppressionKind → Text → Option Text → ℕ → Suppression
new_entry kind value reason id = record { id = id; kind = kind; value = value; reason = reason }

module _ ⦃u : Unicode⦄ ⦃w : Urls⦄ where
  unfoldable pub add_entry : SuppressionKind → Text → Option Text → Db → Suppression × Db
  add_entry kind value reason db =
      let normalized = normalize_value kind value in
      elim (find (is_entry kind normalized) db.suppressions.rows) [
        | some s ↦ (s, db)
        | none ↦ (
          new_entry kind normalized reason db.suppressions.next_id,
          record db { suppressions = add (new_entry kind normalized reason) db.suppressions },
        )
      ]

  abbrev pub add_if : SuppressionKind → Option Text → Text → Db → List Suppression × Db
  add_if kind none reason db = ([], db)
  add_if kind (some v) reason db =
      if truthy v
      then (let (s, db') = add_entry kind v (some reason) db in (s ∷ [], db'))
      else ([], db)

  unfoldable pub add_for_lead : Option Text → Option Text → Text → Db → List Suppression × Db
  add_for_lead lead_email lead_domain reason db =
      let (es, db') = add_if SuppressionKind.email lead_email reason db in
      let (ds, db'') = add_if SuppressionKind.domain lead_domain reason db' in (es ++ ds, db'')

unfoldable pub remove : ℕ → Db → Bool × Db
remove id db = (
  ltb 0 (count (λ s. s.id == id) db.suppressions.rows),
  record db { suppressions = delete_rows (λ s. s.id == id) db.suppressions },
)
