-- ===== src/System/Tests.antt =====
-- app/main.py: a history of events from tables that are consistent.
use flyrank_capstone_widgetp.Base.{ℕ, ◌≡◌, refl, none, some, List, [], ◌∷◌, false, arith, All, map}
use flyrank_capstone_widgetp.Json.{obj, str, end, member}
use flyrank_capstone_widgetp.Posts.{Loads, Post, parsed}
use flyrank_capstone_widgetp.Accounts.Keys.{bearer}
use flyrank_capstone_widgetp.Admin.{delete_widget}
use flyrank_capstone_widgetp.Notifications.Worker.{batch}
use flyrank_capstone_widgetp.Samples.{
  contact, tables_with_lead, fresh_state, small_env, alone, given_data, one_key,
}
use flyrank_capstone_widgetp.System.{Event, calls, works, committed, visits, history}
use flyrank_capstone_widgetp.System.Rows.{AreRows}
use flyrank_capstone_widgetp.Config.{defaults}
use flyrank_capstone_widgetp.Widgets.Fields.{IsUsable}
use flyrank_capstone_widgetp.Widgets.Usable.{AllUsable}
use flyrank_capstone_widgetp.Schema.{Job}
use flyrank_capstone_widgetp.Notifications.{
  claim_due, process_all, process, payload_for, deliver, mark_delivered,
}
use flyrank_capstone_widgetp.Notifications.Worker.{turn, run}
use flyrank_capstone_widgetp.Notifications.Ends.{full_turn, AllDue}
use flyrank_capstone_widgetp.System.Leads.{IsNotified, run-IsNotified}
use flyrank_capstone_widgetp.System.Invariant.{history-AreRows, history-AllUsable}

abbrev reads_lead : Loads
reads_lead _ = parsed (obj (member "widget_id" (str "wgt_1") (member "data" (obj given_data) end)))

abbrev visitor : Post
visitor = record {
  raw = b'{' ∷ b'}' ∷ [];
  headers = ("idempotency-key", "k") ∷ [];
  host = some "10.0.0.1";
}

-- A lead, while the worker has a turn; another turn, which an exception ends; and the widget's delete.
abbrev eventful : List Event
eventful =
    visits reads_lead (alone 0).readings 0 (works (λ _ _. none) (batch 0 (λ _. 1) none) ∷ []) []
      visitor
    ∷ committed (works (λ _ _. none) (batch 5 (λ _. 6) (some 0)))
    ∷ committed (calls (λ k. k) (some (bearer "wpk_a")) (delete_widget "wgt_1") one_key)
    ∷ []

fresh-AreRows : AreRows 4 fresh_state.db
fresh-AreRows = record {
  valid = record { keyed = tt; fresh = tt; served = tt; owned = tt };
  single = tt;
  distinct = tt;
  below = tt;
  budget = tt;
}

history-AreRows_example : AreRows 4 (history small_env eventful fresh_state).db
history-AreRows_example = history-AreRows small_env eventful fresh_state (omega arith) fresh-AreRows

contact-IsUsable : IsUsable defaults contact.fields
contact-IsUsable = record {
  some_field = λ e. cc e;
  unique = (refl, tt);
  free = refl;
  optioned = (refl, tt);
}

history-AllUsable_example : AllUsable defaults (history small_env eventful fresh_state).db.widgets
history-AllUsable_example = history-AllUsable small_env eventful fresh_state (contact-IsUsable, tt)

lead-AreRows : AreRows 4 tables_with_lead
lead-AreRows = record {
  valid = record {
    keyed = (refl, tt);
    fresh = (omega arith, tt);
    served = (refl, tt);
    owned = (omega arith, tt);
  };
  single = (refl, tt);
  distinct = (refl, tt);
  below = (omega arith, tt);
  budget = (omega arith, tt);
}

-- Four turns, a minute apart, without a webhook.
abbrev minutes : List (ℕ × (Job → ℕ))
minutes = (0, λ _. 1) ∷ (60, λ _. 61) ∷ (120, λ _. 121) ∷ (180, λ _. 181) ∷ []

minutes-AllDue : AllDue defaults (λ _ _. none) minutes tables_with_lead
unfolding turn claim_due process_all process payload_for deliver mark_delivered
minutes-AllDue = (
  ((λ p. omega arith), tt),
  (((λ p. omega arith), tt), (((λ p. omega arith), tt), (((λ p. omega arith), tt), tt))),
)

run-IsNotified_example :
    let after = run defaults (λ _ _. none) (map full_turn minutes) tables_with_lead in
    All (λ s. s.is_spam ≡ false → IsNotified after.jobs s) tables_with_lead.submissions
run-IsNotified_example =
    run-IsNotified defaults (λ _ _. none) minutes tables_with_lead lead-AreRows ((λ p. cc), tt)
      minutes-AllDue (omega arith)
