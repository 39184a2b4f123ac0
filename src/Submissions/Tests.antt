-- ===== src/Submissions/Tests.antt =====
-- app/services/submissions.py: the theorems at requests that meet their hypotheses.
use flyrank_capstone_widgetp.Base.{
  String, ◌≡◌, ◌≢◌, refl, none, some, [], ◌∷◌, arith, true, lookup, insert, eq_iff,
}
use flyrank_capstone_widgetp.Json.{str}
use flyrank_capstone_widgetp.Text.{strip, is_space}
use flyrank_capstone_widgetp.Http.{ok}
use flyrank_capstone_widgetp.RateLimit.{check, maybe_sweep, check_widget}
use flyrank_capstone_widgetp.RateLimit.Window.{hit}
use flyrank_capstone_widgetp.Validation.{
  validate_submission, check_declared, check_field, coerce, coerce_text,
}
use flyrank_capstone_widgetp.Database.{create, insert_job, find_by_idempotency_key, get_public}
use flyrank_capstone_widgetp.Database.Consistency.{IsValid}
use flyrank_capstone_widgetp.Delivery.{get_active}
use flyrank_capstone_widgetp.Geo.{GeoService, mock, enrich, is_public_ip, try_chain}
use flyrank_capstone_widgetp.Samples.{
  contact, fresh_tables, fresh_state, small_env, alone, lead, keyed, stored_lead, tables_with_lead,
}
use flyrank_capstone_widgetp.Submissions.{
  State, Moment, Accepted, accept, reject_unknown_keys, receipt, store, store_once, admit, submit,
}
use flyrank_capstone_widgetp.Submissions.Stages.{Ends, submit-Ends}
use flyrank_capstone_widgetp.Submissions.Invariant.{submit-IsValid}
use flyrank_capstone_widgetp.Submissions.Replay.{HasReceipt, submit-HasReceipt, submit-submit}

submit-Ends_example :
    Ends small_env
      (alone 0)
      lead
      (keyed none)
      fresh_state
      (submit small_env (alone 0) lead (keyed none) fresh_state)
submit-Ends_example = submit-Ends small_env (alone 0) lead (keyed none) fresh_state

fresh-IsValid : IsValid fresh_state.db
fresh-IsValid = record { keyed = tt; fresh = tt; served = tt; owned = tt }

submit-IsValid_example : IsValid (submit small_env (alone 0) lead (keyed none) fresh_state).0.db
submit-IsValid_example =
    submit-IsValid small_env (alone 0) lead (keyed none) (λ db v. v) (λ db v. v) fresh_state
      fresh-IsValid

abbrev lucky : GeoService
lucky = record { chain = mock "mock_a" "Spain" "ES" "Madrid" ∷ []; down = []; forced_ip = "" }

abbrev accepted_lead : Accepted
accepted_lead = record { widget = contact; values = ("name", str "Ada") ∷ [] }

lead_accepted : accept small_env lead fresh_tables ≡ ok accepted_lead
unfolding accept reject_unknown_keys get_active get_public validate_submission check_declared
    check_field coerce coerce_text strip is_space lookup insert
lead_accepted = refl

lead_admitted : (check 1 (alone 0).readings "10.0.0.1" "wgt_1" fresh_state.limiter).1 ≡ none
unfolding check maybe_sweep check_widget hit
lead_admitted = refl

abbrev overtaken : Moment
overtaken = record (alone 0) { before_create = λ _. tables_with_lead }

key_there : ◌≢◌ {A = String} "k" ""
key_there = ground (arith, eq_iff "k" "")

-- The other request stores the row between this one's look for it and its insert.
lost_race :
    (submit small_env overtaken lead (keyed (some "k")) fresh_state).1
    ≡ ok (receipt stored_lead true, 200)
unfolding submit accept reject_unknown_keys get_active get_public validate_submission check_declared
    check_field coerce coerce_text strip is_space lookup insert admit check maybe_sweep check_widget
    hit store_once store create find_by_idempotency_key enrich is_public_ip try_chain insert_job
lost_race = refl

submit-HasReceipt_example :
    (a : Accepted) × (accept small_env lead fresh_tables ≡ ok a)
    × HasReceipt a.widget.id "k" 1
        (submit small_env overtaken lead (keyed (some "k")) fresh_state).0.db
submit-HasReceipt_example =
    submit-HasReceipt small_env overtaken lead (keyed (some "k")) "k" fresh_state
      (receipt stored_lead true) 200 refl key_there lost_race

abbrev after_first : State
after_first = (submit small_env (alone 0) lead (keyed (some "k")) fresh_state).0

first_answer :
    (submit small_env (alone 0) lead (keyed (some "k")) fresh_state).1
    ≡ ok (record { id = 1; status = "received" }, 201)
unfolding submit accept reject_unknown_keys get_active get_public validate_submission check_declared
    check_field coerce coerce_text strip is_space lookup insert admit check maybe_sweep check_widget
    hit store_once store create find_by_idempotency_key enrich is_public_ip try_chain insert_job
first_answer = refl

still_accepted : accept small_env lead after_first.db ≡ ok accepted_lead
unfolding submit accept reject_unknown_keys get_active get_public validate_submission check_declared
    check_field coerce coerce_text strip is_space lookup insert admit check maybe_sweep check_widget
    hit store_once store create find_by_idempotency_key enrich is_public_ip try_chain insert_job
still_accepted = refl

still_admitted : (check 1 (alone 1).readings "10.0.0.1" "wgt_1" after_first.limiter).1 ≡ none
unfolding submit accept reject_unknown_keys get_active get_public validate_submission check_declared
    check_field coerce coerce_text strip is_space lookup insert admit check maybe_sweep check_widget
    hit store_once store create find_by_idempotency_key enrich is_public_ip try_chain insert_job
still_admitted = refl

submit-submit_example :
    ((submit small_env (alone 1) lead (keyed (some "k")) after_first).0.db ≡ after_first.db)
    × ((submit small_env (alone 1) lead (keyed (some "k")) after_first).1
        ≡ ok (record { id = 1; status = "replayed" }, 200))
submit-submit_example =
    submit-submit small_env (alone 0) (alone 1) lead lead (keyed (some "k")) (keyed (some "k")) "k"
      fresh_state after_first accepted_lead accepted_lead (record { id = 1; status = "received" })
      201 key_there refl refl lead_accepted lead_admitted first_answer refl still_accepted refl
      still_admitted
