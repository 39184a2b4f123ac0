-- ===== src/Posts/Tests.antt =====
-- app/api/public.py: the theorems at requests that meet their hypotheses.
use flyrank_capstone_widgetp.Base.{refl, ◌≡◌, false, lookup, insert, some, [], ◌∷◌}
use flyrank_capstone_widgetp.Json.{str, obj, end, member}
use flyrank_capstone_widgetp.Samples.{fresh_state, fresh_tables, small_env, alone, given_data}
use flyrank_capstone_widgetp.Http.{crash, data_error}
use flyrank_capstone_widgetp.Text.{strip, is_space}
use flyrank_capstone_widgetp.RateLimit.{check, maybe_sweep, check_widget}
use flyrank_capstone_widgetp.RateLimit.Window.{hit}
use flyrank_capstone_widgetp.Validation.{
  validate_submission, check_declared, check_field, coerce, coerce_text,
}
use flyrank_capstone_widgetp.Database.{create, find_by_idempotency_key, get_public}
use flyrank_capstone_widgetp.Delivery.{get_active}
use flyrank_capstone_widgetp.Geo.{enrich, is_public_ip, try_chain}
use flyrank_capstone_widgetp.Submissions.{
  State, accept, reject_unknown_keys, store, store_once, admit, submit,
}
use flyrank_capstone_widgetp.Posts.{
  Post, Loads, parsed, create_submission, read_payload, check_envelope, client_ip,
}

abbrev small_post : Post
small_post = record {
  raw = b'{' ∷ b'}' ∷ [];
  headers = ("idempotency-key", "k") ∷ [];
  host = some "10.0.0.1";
}

-- A parser that reads a lead from whatever bytes.
abbrev reads_lead : Loads
reads_lead _ = parsed (obj (member "widget_id" (str "wgt_1") (member "data" (obj given_data) end)))

-- A server that stores no row: the request ends in an exception.
abbrev strict_state : State
strict_state = record fresh_state { db = record fresh_tables { accepts = λ _. false } }

row_refused :
    (create_submission small_env reads_lead (alone 0) small_post strict_state).1 ≡ crash data_error
unfolding create_submission read_payload check_envelope submit accept reject_unknown_keys get_active
    get_public validate_submission check_declared check_field coerce coerce_text strip is_space
    lookup insert admit check maybe_sweep check_widget hit store_once store create
    find_by_idempotency_key enrich is_public_ip try_chain client_ip
row_refused = refl
