-- ===== src/Widgets.antt =====
-- app/services/widgets.py and app/repositories/widgets.py: what a tenant does with widgets. A new id
-- (`new_widget_id`, random) is a parameter. The tenant is one that exists, as every caller has
-- authenticated it.
pub mod Fields
pub mod Tenants
pub mod Versions
pub mod Usable
pub mod Declared
mod Tests
use Prim.Native.String.{◌++◌ as str_append}
use flyrank_capstone_widgetp.Base.{
  ℕ, ◌+◌, String, Bool, true, false, not, ◌&&◌, Option, none, some, List, [], ◌∷◌, ◌++◌, map,
  select, find, any, count, leb, ltb, ◌==◌, str_eq, if◌then◌else◌,
}
use flyrank_capstone_widgetp.Text.{least}
use flyrank_capstone_widgetp.Json.{Json}
use flyrank_capstone_widgetp.Config.{Config}
use flyrank_capstone_widgetp.Http.{
  Outcome, ok, http, crash, raise, ◌>>=◌, ◌>>◌, message, about, unique_violation,
  not_null_violation,
}
use flyrank_capstone_widgetp.Schema.{Field, Widget, Submission, Job}
use flyrank_capstone_widgetp.Database.{Database}

-- `WidgetCreate.model_dump()`
pub record WidgetSpec : Type 0 where
  pub kind : String
  pub title : String
  pub description : String
  pub fields : List Field
  pub button_text : String
  pub options : Json

-- `WidgetUpdate.model_dump(exclude_unset=True)`: a column and its value, where `none` is a null that
-- the caller wrote. A null for `options` is stored as the JSON value null.
pub data Change : Type 0 where
  title_to description_to button_text_to : Option String → Change
  fields_to : List Field → Change
  options_to : Json → Change
  active_to : Option Bool → Change

abbrev pub is_owned : String → ℕ → Widget → Bool
is_owned widget_id tenant_id w = str_eq w.id widget_id && w.tenant_id == tenant_id

-- The row that the INSERT makes of a widget, with the defaults of the table.
abbrev pub new_widget : ℕ → String → ℕ → WidgetSpec → Widget
new_widget now widget_id tenant_id spec = record {
  id = widget_id;
  tenant_id = tenant_id;
  kind = spec.kind;
  title = spec.title;
  description = spec.description;
  fields = spec.fields;
  button_text = spec.button_text;
  options = spec.options;
  config_version = 1;
  active = true;
  created_at = now;
  updated_at = now;
}

-- `WidgetsRepository.create`
unfoldable pub insert_widget : ℕ → String → ℕ → WidgetSpec → Database → Database × Outcome Widget
insert_widget now widget_id tenant_id spec db =
    let row = new_widget now widget_id tenant_id spec in
    if any (λ w. str_eq w.id widget_id) db.widgets
    then (db, crash unique_violation)
    else (record db { widgets = db.widgets ++ row ∷ [] }, ok row)

-- `ORDER BY created_at DESC`
abbrev pub insert_newest_first : Widget → List Widget → List Widget
insert_newest_first w [] = w ∷ []
insert_newest_first w (v ∷ vs) =
    let rest = insert_newest_first w vs in
    if leb v.created_at w.created_at then w ∷ v ∷ vs else v ∷ rest

abbrev pub newest_first : List Widget → List Widget
newest_first [] = []
newest_first (w ∷ ws) = insert_newest_first w (newest_first ws)

-- `list_for_tenant`
unfoldable pub list_for_tenant : ℕ → Database → List Widget
list_for_tenant tenant_id db = newest_first (select (λ w. w.tenant_id == tenant_id) db.widgets)

-- `get_for_tenant`
unfoldable pub get_for_tenant : String → ℕ → Database → Option Widget
get_for_tenant widget_id tenant_id db = find (is_owned widget_id tenant_id) db.widgets

-- One assignment; `none` where a column that is NOT NULL is set to null.
abbrev pub assign : Change → Widget → Option Widget
assign (title_to (some t)) w = some (record w { title = t })
assign (description_to (some t)) w = some (record w { description = t })
assign (button_text_to (some t)) w = some (record w { button_text = t })
assign (fields_to fields) w = some (record w { fields = fields })
assign (options_to options) w = some (record w { options = options })
assign (active_to (some b)) w = some (record w { active = b })
assign _ w = none

abbrev pub then_assign : (Widget → Option Widget) → Option Widget → Option Widget
then_assign rest none = none
then_assign rest (some w) = rest w

abbrev pub assign_all : List Change → Widget → Option Widget
assign_all [] w = some w
assign_all (c ∷ changes) w = then_assign (assign_all changes) (assign c w)

-- `config_version = config_version + 1, updated_at = now()`
abbrev pub bumped : ℕ → Widget → Widget
bumped now w = record w { config_version = w.config_version + 1; updated_at = now }

abbrev pub put_widget : (Widget → Bool) → Widget → List Widget → List Widget
put_widget p row = map (λ w. if p w then row else w)

-- `WidgetsRepository.update`: of the rows that the WHERE clause names, of which there is one at most.
unfoldable pub update_widget :
    ℕ → String → ℕ → List Change → Database → Database × Outcome (Option Widget)
unfolding get_for_tenant
update_widget now widget_id tenant_id changes db = elim (get_for_tenant widget_id tenant_id db) [
  | none ↦ (db, ok none)
  | some w ↦ elim (assign_all changes w) [
    | none ↦ (db, crash not_null_violation)
    | some v ↦ (
      record db { widgets = put_widget (is_owned widget_id tenant_id) (bumped now v) db.widgets },
      ok (some (bumped now v)),
    )
  ]
]

abbrev pub is_submission_of : List Submission → Job → Bool
is_submission_of rows j = any (λ s. s.id == j.submission_id) rows

-- `WidgetsRepository.delete`, with the rows that ON DELETE CASCADE takes along.
unfoldable pub delete_widget : String → ℕ → Database → Database × Bool
delete_widget widget_id tenant_id db =
    let kept = select (λ s. not (str_eq s.widget_id widget_id)) db.submissions in
    let gone = select (λ s. str_eq s.widget_id widget_id) db.submissions in
    if any (is_owned widget_id tenant_id) db.widgets
    then (
      record db {
        widgets = select (λ w. not (is_owned widget_id tenant_id w)) db.widgets;
        submissions = kept;
        jobs = select (λ j. not (is_submission_of gone j)) db.jobs;
      },
      true,
    )
    else (db, false)

-- `{name for name in names if names.count(name) > 1}`
abbrev pub duplicates : List String → List String
duplicates names = select (λ n. ltb 1 (count (str_eq n) names)) names

abbrev pub check_unique : List String → Outcome (Unit {0})
check_unique [] = ok tt
check_unique (n ∷ ns) = raise 400 (about "fields: duplicate field name" (least n ns))

abbrev pub check_reserved : Bool → Outcome (Unit {0})
check_reserved true = raise 400 (message "fields: a name is reserved for the honeypot")
check_reserved false = ok tt

-- `not field.get("options")`
abbrev pub has_no_options : Option (List String) → Bool
has_no_options (some (o ∷ os)) = false
has_no_options _ = true

abbrev pub is_bare_select : Field → Bool
is_bare_select field = str_eq field.kind "select" && has_no_options field.options

abbrev pub check_selects : Option Field → Outcome (Unit {0})
check_selects none = ok tt
check_selects (some field) = raise 400 (about field.name "is a select with no options")

abbrev pub names_of : List Field → List String
names_of = map (λ f. f.name)

abbrev pub found_or_404 : Option Widget → Outcome Widget
found_or_404 none = raise 404 (message "Widget not found")
found_or_404 (some w) = ok w

abbrev apply_changes : ℕ → String → ℕ → List Change → Database → Database × Outcome Widget
apply_changes now widget_id tenant_id changes db =
    let (db', row) = update_widget now widget_id tenant_id changes db in (db', row >>= found_or_404)

-- `get`
unfoldable pub get_widget : String → ℕ → Database → Outcome Widget
get_widget widget_id tenant_id db = found_or_404 (get_for_tenant widget_id tenant_id db)

-- `delete`
unfoldable pub remove_widget : String → ℕ → Database → Database × Outcome (Unit {0})
remove_widget widget_id tenant_id db =
    let (db', there) = delete_widget widget_id tenant_id db in
    (db', if there then ok tt else raise 404 (message "Widget not found"))

module _ (cfg : Config) where
  -- `check_fields`
  unfoldable pub check_fields : List Field → Outcome (Unit {0})
  check_fields [] = raise 400 (message "fields: at least one field is required")
  check_fields (f ∷ fs) = do
    check_unique (duplicates (names_of (f ∷ fs)))
    check_reserved (any (str_eq cfg.honeypot_field) (names_of (f ∷ fs)))
    check_selects (find is_bare_select (f ∷ fs))

  -- `create`
  unfoldable pub create_widget : ℕ → String → ℕ → WidgetSpec → Database → Database × Outcome Widget
  create_widget now widget_id tenant_id spec db = elim (check_fields spec.fields) [
    | ok u ↦ insert_widget now widget_id tenant_id spec db
    | http e ↦ (db, http e)
    | crash x ↦ (db, crash x)
  ]

  -- `changes["fields"]` is checked if it is there; a dict has it once at most.
  abbrev pub check_changes : List Change → Outcome (Unit {0})
  check_changes [] = ok tt
  check_changes (fields_to fields ∷ changes) = check_fields fields >> check_changes changes
  check_changes (_ ∷ changes) = check_changes changes

  -- `update`
  unfoldable pub change_widget : ℕ → String → ℕ → List Change → Database → Database × Outcome Widget
  change_widget now widget_id tenant_id [] db = (db, raise 400 (message "No fields to update"))
  change_widget now widget_id tenant_id (c ∷ cs) db = elim (check_changes (c ∷ cs)) [
    | ok u ↦ apply_changes now widget_id tenant_id (c ∷ cs) db
    | http e ↦ (db, http e)
    | crash x ↦ (db, crash x)
  ]

  -- `embed_snippet`
  unfoldable pub embed_snippet : String → ℕ → Database → Outcome (String × String)
  unfolding get_widget
  embed_snippet widget_id tenant_id db = get_widget widget_id tenant_id db >>= λ w. ok (
    w.id,
    str_append "<script src=\"" (
        str_append cfg.public_base_url
          (str_append "/widget.js?id=" (str_append w.id "\" async></script>"))),
  )
