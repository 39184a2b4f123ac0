-- ===== src/Widgets/Tests.antt =====
-- app/services/widgets.py: the theorems at widgets that meet their hypotheses.
use flyrank_capstone_widgetp.Base.{◌≡◌, refl, ◌↔◌, some, List, [], ◌∷◌}
use flyrank_capstone_widgetp.Json.{obj, end}
use flyrank_capstone_widgetp.Config.{defaults}
use flyrank_capstone_widgetp.Http.{ok}
use flyrank_capstone_widgetp.Schema.{Field, Widget}
use flyrank_capstone_widgetp.Samples.{name_field, number_field, contact, fresh_tables}
use flyrank_capstone_widgetp.Widgets.{
  WidgetSpec, title_to, check_fields, get_for_tenant, update_widget, change_widget, bumped,
}
use flyrank_capstone_widgetp.Widgets.Fields.{IsUsable, check_fields-IsUsable}
use flyrank_capstone_widgetp.Widgets.Versions.{Patched, change_widget-Patched}

abbrev two_fields : List Field
two_fields = name_field ∷ number_field ∷ []

check_fields-IsUsable_example :
    (check_fields defaults two_fields ≡ ok tt) ↔ IsUsable defaults two_fields
check_fields-IsUsable_example = check_fields-IsUsable defaults two_fields

abbrev survey : WidgetSpec
survey = record {
  kind = "cta";
  title = "Survey";
  description = "";
  fields = two_fields;
  button_text = "Send";
  options = obj end;
}

abbrev renamed : Widget
renamed = bumped 9 (record contact { title = "Hello" })

title_changes :
    (change_widget defaults 9 "wgt_1" 1 (title_to (some "Hello") ∷ []) fresh_tables).1 ≡ ok renamed
unfolding change_widget update_widget get_for_tenant
title_changes = refl

change_widget-Patched_example :
    Patched "wgt_1" 1 fresh_tables
      (change_widget defaults 9 "wgt_1" 1 (title_to (some "Hello") ∷ []) fresh_tables).0
      renamed
change_widget-Patched_example =
    change_widget-Patched defaults 9 1 "wgt_1" (title_to (some "Hello") ∷ []) fresh_tables renamed
      title_changes

contact-IsUsable : IsUsable defaults contact.fields
contact-IsUsable = record {
  some_field = λ e. cc e;
  unique = (refl, tt);
  free = refl;
  optioned = (refl, tt);
}

two_pass : check_fields defaults two_fields ≡ ok tt
unfolding check_fields
two_pass = refl
