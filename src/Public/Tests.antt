-- ===== src/Public/Tests.antt =====
-- app/api/public.py: the theorem at a widget that meets its hypotheses.
use flyrank_capstone_widgetp.Base.{ℕ, zero, suc, String, ◌≡◌, refl, sym, ap, ◌∙◌, some, [], ◌∷◌}
use flyrank_capstone_widgetp.Text.{text_length}
use flyrank_capstone_widgetp.Json.{ℤ, pos, negsuc, Python}
use flyrank_capstone_widgetp.Config.{defaults}
use flyrank_capstone_widgetp.Http.{ok}
use flyrank_capstone_widgetp.Schema.{Widget}
use flyrank_capstone_widgetp.Samples.{small_python, contact, fresh_tables}
use flyrank_capstone_widgetp.Database.{get_public}
use flyrank_capstone_widgetp.Delivery.{config_etag, public_config}
use flyrank_capstone_widgetp.Widgets.{
  title_to, change_widget, update_widget, get_for_tenant, bumped,
}
use flyrank_capstone_widgetp.Public.{widget_config}
use flyrank_capstone_widgetp.Public.Caching.{widget_config-change_widget}

-- Numbers as tallies.
abbrev tally : ℕ → String
tally zero = ""
tally (suc n) = String.◌∷◌ "I" (tally n)

length-tally : (n : ℕ) → text_length (tally n) ≡ n
length-tally zero = refl
length-tally (suc n) = ap suc (length-tally n)

abbrev tally_int : ℤ → String
tally_int (pos n) = tally n
tally_int (negsuc n) = "-"

abbrev tallying : Python
tallying = record small_python { int_text = tally_int }

tally_injective : (m n : ℕ) → tally m ≡ tally n → m ≡ n
tally_injective m n e = sym (length-tally m) ∙ ap text_length e ∙ length-tally n

abbrev hello : Widget
hello = bumped 9 (record contact { title = "Hello" })

hello_answered :
    (change_widget defaults 9 "wgt_1" 1 (title_to (some "Hello") ∷ []) fresh_tables).1 ≡ ok hello
unfolding change_widget update_widget get_for_tenant
hello_answered = refl

contact_there : get_public "wgt_1" fresh_tables ≡ ok (some contact)
unfolding get_public
contact_there = refl

widget_config-change_widget_example :
    widget_config defaults tallying "wgt_1"
      (some (config_etag tallying contact))
      (change_widget defaults 9 "wgt_1" 1 (title_to (some "Hello") ∷ []) fresh_tables).0
    ≡ ok (record {
      status = 200;
      etag = config_etag tallying hello;
      max_age = 60;
      body = some (public_config defaults hello);
    })
widget_config-change_widget_example =
    widget_config-change_widget defaults tallying 9 1 "wgt_1" (title_to (some "Hello") ∷ [])
      fresh_tables hello contact tally_injective contact_there refl hello_answered refl
