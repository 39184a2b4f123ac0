-- ===== src/Admin.antt =====
-- app/api/widgets.py and app/api/dashboard.py: the endpoints of the admin API, each behind
-- `require_tenant`. A request is a call with its parameters read; reading them out of paths, queries
-- and bodies is FastAPI's. The clock and the random token of a new id are parameters.
pub mod Access
pub mod Holds
pub mod Nulls
pub mod Shows
mod Tests
use flyrank_capstone_widgetp.Base.{
  ℕ, String, Bool, true, false, not, ◌&&◌, ◌||◌, Option, none, some, List, [], ◌∷◌, any, ltb, leb,
  length, str_eq, if◌then◌else◌,
}
use flyrank_capstone_widgetp.Text.{codes, text_length, same_codes}
use flyrank_capstone_widgetp.Json.{Json, ℤ, pos, negsuc}
use flyrank_capstone_widgetp.Config.{Config}
use flyrank_capstone_widgetp.Http.{Outcome, ok, http, crash, raise, ◌>>=◌, message, type_error}
use flyrank_capstone_widgetp.Schema.{Field, Widget}
use flyrank_capstone_widgetp.Database.{Database}
use flyrank_capstone_widgetp.Accounts.{
  Accounts, Tenant, Credentials, Digest, require_tenant, new_widget_id,
}
use flyrank_capstone_widgetp.Widgets.{
  WidgetSpec, Change, title_to, description_to, button_text_to, fields_to, options_to, active_to,
  create_widget, change_widget, remove_widget, get_widget, list_for_tenant, embed_snippet,
}
use flyrank_capstone_widgetp.Dashboard.{Page, Overview, list_submissions, overview}
use flyrank_capstone_widgetp.Stats.{WidgetTotal, by_widget, by_country, series}

abbrev pub field_types : List String
field_types = "text" ∷ "email" ∷ "textarea" ∷ "select" ∷ "checkbox" ∷ "number" ∷ []

abbrev pub widget_types : List String
widget_types = "signup_form" ∷ "contact_form" ∷ "cta" ∷ "popover" ∷ []

abbrev pub is_letter : ℕ → Bool
is_letter c = leb b'a' c && leb c b'z'

abbrev pub is_name_rest : List ℕ → Bool
is_name_rest [] = true
is_name_rest (c ∷ cs) =
    (is_letter c || ((leb b'0' c && leb c b'9') || same_codes (c ∷ []) (b'_' ∷ [])))
    && is_name_rest cs

-- `^[a-z][a-z0-9_]*$`
abbrev pub is_name : List ℕ → Bool
is_name [] = false
is_name (c ∷ cs) = is_letter c && is_name_rest cs

abbrev pub is_length : ℕ → ℕ → String → Bool
is_length low high s = leb low (text_length s) && leb (text_length s) high

abbrev pub is_max_length : Option ℕ → Bool
is_max_length none = true
is_max_length (some n) = leb 1 n && leb n 5000

-- The constraints of `FieldSpec`.
abbrev pub is_field_spec : Field → Bool
is_field_spec f =
    is_name (codes f.name)
    && is_length 1 40 f.name
    && is_length 1 80 f.label
    && any (str_eq f.kind) field_types
    && is_max_length f.max_length

abbrev pub all_specs : List Field → Bool
all_specs [] = true
all_specs (f ∷ fs) = is_field_spec f && all_specs fs

abbrev pub is_field_list : List Field → Bool
is_field_list fields = leb 1 (length fields) && leb (length fields) 12 && all_specs fields

-- The constraints of `WidgetCreate`.
abbrev pub is_widget_create : WidgetSpec → Bool
is_widget_create w =
    any (str_eq w.kind) widget_types
    && is_length 1 120 w.title
    && is_length 0 400 w.description
    && is_field_list w.fields
    && is_length 1 40 w.button_text

-- A key of a PATCH body, with its value or `none` for an explicit null, which passes the checks of an
-- optional field. A null for `options` is stored as the JSON value null.
pub data Edit : Type 0 where
  new_title new_description new_button_text : Option String → Edit
  new_fields : Option (List Field) → Edit
  new_options : Json → Edit
  new_active : Option Bool → Edit

abbrev pub is_given_length : ℕ → ℕ → Option String → Bool
is_given_length low high none = true
is_given_length low high (some s) = is_length low high s

abbrev pub is_given_list : Option (List Field) → Bool
is_given_list none = true
is_given_list (some fields) = is_field_list fields

-- The constraints of `WidgetUpdate` on what is there.
abbrev pub is_edit : Edit → Bool
is_edit (new_title t) = is_given_length 1 120 t
is_edit (new_description t) = is_given_length 0 400 t
is_edit (new_button_text t) = is_given_length 1 40 t
is_edit (new_fields fields) = is_given_list fields
is_edit (new_options options) = true
is_edit (new_active active) = true

abbrev pub is_widget_update : List Edit → Bool
is_widget_update [] = true
is_widget_update (e ∷ es) = is_edit e && is_widget_update es

-- `[x for x in xs]`, where None is not iterable.
abbrev pub iterated {ℓ} : {A : Type ℓ} → Option (List A) → Outcome (List A)
iterated none = crash type_error
iterated (some xs) = ok xs

-- What is passed on of one key.
abbrev pub change_of : Edit → Outcome Change
change_of (new_title t) = ok (title_to t)
change_of (new_description t) = ok (description_to t)
change_of (new_button_text t) = ok (button_text_to t)
change_of (new_fields fields) = iterated fields >>= λ fields. ok (fields_to fields)
change_of (new_options options) = ok (options_to options)
change_of (new_active active) = ok (active_to active)

-- `update_widget`, before the service is called
abbrev pub changes_of : List Edit → Outcome (List Change)
changes_of [] = ok []
changes_of (e ∷ es) = do c ← change_of e; cs ← changes_of es; ok (c ∷ cs)

-- A call with its parameters; that of the list of submissions carries the tables that its second
-- statement reads.
pub data AdminCall : Type 0 where
  post_widget : ℕ → String → WidgetSpec → AdminCall
  patch_widget : ℕ → String → List Edit → AdminCall
  delete_widget : String → AdminCall
  read_widget read_embed : String → AdminCall
  read_widgets : AdminCall
  read_submissions : Option String → ℤ → ℤ → Bool → Database → AdminCall
  read_overview : ℕ → AdminCall
  read_by_widget read_geo : AdminCall
  read_series : ℕ → ℤ → AdminCall

pub data Answer : Type 0 where
  widget : Widget → Answer
  widgets : List Widget → Answer
  embed : String × String → Answer
  nothing : Answer
  page : Page → Answer
  headline : Overview → Answer
  per_widget : List WidgetTotal → Answer
  per_country : List (String × Json × ℕ) → Answer
  per_day : List (ℕ × ℕ) → Answer

-- `Query(ge=low, le=high)`
abbrev pub is_between : ℕ → ℕ → ℤ → Bool
is_between low high (pos n) = leb low n && leb n high
is_between low high (negsuc n) = false

abbrev pub is_natural : ℤ → Bool
is_natural (pos n) = true
is_natural (negsuc n) = false

-- What the error handler makes of a RequestValidationError.
abbrev pub bad_request {ℓ} : {A : Type ℓ} → Outcome A
bad_request = raise 400 (message "invalid request")

abbrev pub answered {ℓ} :
    {A : Type ℓ} → (A → Answer) → Database × Outcome A → Database × Outcome Answer
answered f r = (r.0, r.1 >>= λ a. ok (f a))

abbrev pub read : Database → Answer → Database × Outcome Answer
read db a = (db, ok a)

module _ (cfg : Config) where
  abbrev pub patch_with :
      ℕ → String → ℕ → Outcome (List Change) → Database → Database × Outcome Answer
  patch_with now id tenant (ok cs) db = answered widget (change_widget cfg now id tenant cs db)
  patch_with now id tenant (http e) db = (db, http e)
  patch_with now id tenant (crash x) db = (db, crash x)

  -- The bodies of the endpoints, for a tenant.
  unfoldable pub serve : ℕ → AdminCall → Database → Database × Outcome Answer
  serve tenant (post_widget now token spec) db =
      if is_widget_create spec
      then answered widget (create_widget cfg now (new_widget_id token) tenant spec db)
      else (db, bad_request)
  serve tenant (patch_widget now id edits) db =
      if is_widget_update edits
      then patch_with now id tenant (changes_of edits) db
      else (db, bad_request)
  serve tenant (delete_widget id) db = answered (λ u. nothing) (remove_widget id tenant db)
  serve tenant (read_widget id) db = answered widget (db, get_widget id tenant db)
  serve tenant (read_embed id) db = answered embed (db, embed_snippet cfg id tenant db)
  serve tenant read_widgets db = read db (widgets (list_for_tenant tenant db))
  serve tenant (read_submissions of_widget limit offset spam later) db =
      if is_between 1 100 limit && is_natural offset
      then read db (page (list_submissions tenant of_widget limit offset spam db later))
      else (db, bad_request)
  serve tenant (read_overview now) db = read db (headline (overview now tenant db))
  serve tenant read_by_widget db = read db (per_widget (by_widget tenant db))
  serve tenant read_geo db = read db (per_country (by_country tenant 20 db))
  serve tenant (read_series now days) db =
      if is_between 1 90 days
      then read db (per_day (series now tenant days db))
      else (db, bad_request)

  -- `Depends(require_tenant)` before the body.
  unfoldable pub admin :
      Digest → Option Credentials → AdminCall → Accounts → Database → Database × Outcome Answer
  unfolding require_tenant serve
  admin hash_key credentials call accounts db =
      elim (require_tenant hash_key credentials accounts) [
        | ok tenant ↦ serve tenant.id call db
        | http e ↦ (db, http e)
        | crash x ↦ (db, crash x)
      ]
