-- ===== src/Admin/Nulls.antt =====
-- app/api/widgets.py with app/services/widgets.py: which PATCH ends in an exception.
use flyrank_capstone_widgetp.Base.{ℕ, String, Bool, true, false, ◌≡◌, none, some, List, any}
use flyrank_capstone_widgetp.Config.{Config}
use flyrank_capstone_widgetp.Http.{Exception, type_error, not_null_violation}
use flyrank_capstone_widgetp.Schema.{Widget}
use flyrank_capstone_widgetp.Database.{Database}
use flyrank_capstone_widgetp.Accounts.{Accounts}
use flyrank_capstone_widgetp.Widgets.{
  Change, title_to, description_to, button_text_to, active_to, get_for_tenant,
}
use flyrank_capstone_widgetp.Admin.{
  Edit, new_title, new_description, new_button_text, new_fields, new_active,
}

abbrev pub is_null_fields : Edit → Bool
is_null_fields (new_fields none) = true
is_null_fields _ = false

-- An explicit null for a column that is NOT NULL and no list.
abbrev pub is_null_column : Edit → Bool
is_null_column (new_title none) = true
is_null_column (new_description none) = true
is_null_column (new_button_text none) = true
is_null_column (new_active none) = true
is_null_column _ = false

abbrev is_null_change : Change → Bool
is_null_change (title_to none) = true
is_null_change (description_to none) = true
is_null_change (button_text_to none) = true
is_null_change (active_to none) = true
is_null_change _ = false

-- A PATCH that fails in the database: the tenant has the widget, and a column that may not be null is
-- given one.
record Violates (tenant : ℕ) (id : String) (cs : List Change) (x : Exception) (db : Database)
    : Type 0 where
  exception : x ≡ not_null_violation
  null : any is_null_change cs ≡ true
  row : Widget
  there : get_for_tenant id tenant db ≡ some row

-- How a PATCH ends in an exception: a null for the fields, which is iterated, or one for another
-- column of a widget that the tenant has.
pub data NullEnds (tenant : ℕ) (id : String) (edits : List Edit) (x : Exception) (db : Database)
    : Type 0 where
  not_iterable : x ≡ type_error → any is_null_fields edits ≡ true → NullEnds tenant id edits x db
  not_null :
      x ≡ not_null_violation
      → any is_null_fields edits ≡ false
      → any is_null_column edits ≡ true
      → (row : Widget) → get_for_tenant id tenant db ≡ some row
      → NullEnds tenant id edits x db
