-- ===== src/Submissions/Stages.antt =====
-- app/services/submissions.py: what each way through `submit` does.
use flyrank_capstone_widgetp.Base.{
  Bool-cases, ℕ, String, true, not, ◌≡◌, refl, ◌⊎◌, inl, inr, Option, none, some, List, [], ◌∷◌,
  ◌++◌, arith, lookup, Option-cases, select,
}
use flyrank_capstone_widgetp.Json.{Json, str}
use flyrank_capstone_widgetp.Http.{
  Outcome, >>=-eq-http, ok, http, crash, HttpError, Exception, type_error, foreign_key_violation,
  data_error,
}
use flyrank_capstone_widgetp.Schema.{Widget, Submission}
use flyrank_capstone_widgetp.RateLimit.{RateLimiter, check}
use flyrank_capstone_widgetp.Validation.{validate_submission}
use flyrank_capstone_widgetp.Validation.Accepts.{validate_submission_refusals}
use flyrank_capstone_widgetp.Database.{Database, new_row, get_public}
use flyrank_capstone_widgetp.Database.Replays.{
  Creates, unstorable, taken, stored, gone, create-Creates,
}
use flyrank_capstone_widgetp.Delivery.{get_active, active_or_404}
use flyrank_capstone_widgetp.Submissions.{
  Env, State, Moment, Context, Receipt, Payload, Accepted, reject_unknown_keys, receipt, widget_of,
  given_key, find_replay, accept, unexpected, is_allowed, spam_of, new_submission, replay_answer,
  new_answer, answer, store_once, admit, submit, with_db,
}

-- A refusal is a 400, a 404 or a 429.
abbrev pub IsRefusal : HttpError → Type 0
IsRefusal e = (e.status ≡ 400) ⊎ ((e.status ≡ 404) ⊎ (e.status ≡ 429))

status-unexpected :
    (es : List (String × Json)) (e : HttpError) → unexpected es ≡ http e → e.status ≡ 400
status-unexpected [] e h = cc
status-unexpected (x ∷ es) e h = ground arith

status-active_or_404 :
    (o : Option Widget) (e : HttpError) → active_or_404 o ≡ http e → e.status ≡ 404
status-active_or_404 none e h = ground arith
status-active_or_404 (some w) e h = ground arith

module _ (env : Env) (m : Moment) (payload : Payload) (ctx : Context) where
  -- The row that a submission becomes: numbered by the sequence, with the cleaned values.
  abbrev pub row_of : Accepted → Database → Submission
  row_of a db =
      new_row (m.before_create db).next_submission m.now (new_submission env payload ctx a)

  -- How a submission can end, from the state and with the result.
  pub data Ends (s : State) (r : State × Outcome (Receipt × ℕ)) : Type 0 where
    refused : (e : HttpError) → r.1 ≡ http e → IsRefusal e → r.0.db ≡ s.db → Ends s r
    failed : (x : Exception) → r.1 ≡ crash x → Ends s r
    replayed : (row : Submission) → r.1 ≡ ok (receipt row true, 200) → Ends s r
    accepted :
        (a : Accepted)
        → accept env payload s.db ≡ ok a
        → r.1 ≡ ok (new_answer env (spam_of env payload) (row_of a s.db))
        → r.0.db.submissions ≡ (m.before_create s.db).submissions ++ row_of a s.db ∷ []
        → Ends s r

  answer-Ends :
      (a : Accepted) (s : State) (r : Database × Outcome (Option Submission))
      → Creates m.now (new_submission env payload ctx a) (m.before_create s.db) r
      → accept env payload s.db ≡ ok a
      → (limiter : RateLimiter) → Ends s (with_db env limiter (answer env m payload ctx a r.0 r.1))
  answer-Ends a s r (unstorable b e p j) acc limiter = failed data_error (rw e)
  answer-Ends a s r (taken t e p j) acc limiter =
      elim (Option-cases (find_replay a.widget.id ctx.idempotency_key (m.before_refind r.0))) [
        | inl n ↦ failed type_error (rw (e, answer) (rw (n, replay_answer)))
        | inr (row, f) ↦ replayed row (rw (e, answer) (rw (f, replay_answer)))
      ]
  answer-Ends a s r (stored t e p) acc limiter = accepted a acc (rw e) (rw e p)
  answer-Ends a s r (gone t w e p j) acc limiter = failed foreign_key_violation (rw e)

  store_once-Ends :
      (a : Accepted) (s : State) (limiter : RateLimiter)
      → accept env payload s.db ≡ ok a
      → Ends s (with_db env limiter (store_once env m payload ctx a s.db))
  unfolding store_once
  store_once-Ends a s limiter acc =
      elim (Option-cases (find_replay a.widget.id (given_key ctx.idempotency_key) s.db)) [
        | inr (row, f) ↦ replayed row (rw (f, store_once))
        | inl n ↦
            rw (n, store_once)
              (answer-Ends a s _
                (create-Creates m.now (new_submission env payload ctx a) (not (spam_of env payload))
                  (m.before_create s.db))
                acc limiter)
      ]

  admit-Ends :
      (a : Accepted) (s : State)
      → accept env payload s.db ≡ ok a
      → Ends s (admit env m payload ctx a s)
  unfolding admit
  admit-Ends a s acc =
      let seen = check env.hz m.readings ctx.ip a.widget.id s.limiter in
      elim (Option-cases seen.1) [
        | inl n ↦ rw (n, admit) (store_once-Ends a s seen.0 acc)
        | inr ((scope, wait), e) ↦ rw (e, admit) (refused _ refl (inr (inr refl)) refl)
      ]

  reject_unknown_keys-IsRefusal :
      (e : HttpError) → reject_unknown_keys env.cfg payload ≡ http e → IsRefusal e
  unfolding reject_unknown_keys
  reject_unknown_keys-IsRefusal e h =
      inl (status-unexpected (select (λ x. not (is_allowed env.cfg x)) payload) e h)

  widget_of-IsRefusal :
      (o : Option Json) (db : Database) (e : HttpError) → widget_of o db ≡ http e → IsRefusal e
  unfolding get_active get_public
  widget_of-IsRefusal (some (str id)) db e h = elim (Bool-cases (db.takes id)) [
    | inl good ↦ inr (inl (status-active_or_404 _ e (rw good at h)))
    | inr bad ↦ cc (rw bad at h)
  ]
  widget_of-IsRefusal none db e h = cc
  widget_of-IsRefusal (some _) db e h = cc

  accept-IsRefusal : (db : Database) (e : HttpError) → accept env payload db ≡ http e → IsRefusal e
  unfolding accept
  accept-IsRefusal db e h = elim (>>=-eq-http (widget_of (lookup "widget_id" payload) db) _ h) [
    | inl w ↦ widget_of-IsRefusal _ db e w
    | inr (w, _, h') ↦ elim (>>=-eq-http (reject_unknown_keys env.cfg payload) _ h') [
      | inl r ↦ reject_unknown_keys-IsRefusal e r
      | inr (_, _, h'') ↦
          elim (>>=-eq-http
            (validate_submission env.cfg env.python w.fields (lookup "data" payload)) _ h'') [
              | inl v ↦ inl ((validate_submission_refusals env.cfg env.python w.fields _).0 e v)
              | inr (_, _, f) ↦ cc f
            ]
    ]
  ]

  -- Whatever the payload, the state and what others commit, a submission ends in one of four ways:
  -- refused with a 400, a 404 or a 429, the tables untouched; failed by an exception; answered with a
  -- 200 and the number of a row; or stored, with exactly one new row, which holds the cleaned values
  -- and is answered with 201, or with 202 if the honeypot was filled.
  pub submit-Ends : (s : State) → Ends s (submit env m payload ctx s)
  unfolding submit
  submit-Ends s = go (accept env payload s.db) refl
    where
      go :
          (r : Outcome Accepted) → accept env payload s.db ≡ r → Ends s (submit env m payload ctx s)
      go (ok a) e = rw (e, submit) (admit-Ends a s e)
      go (http x) e = rw (e, submit) (refused x refl (accept-IsRefusal s.db x e) refl)
      go (crash x) e = rw (e, submit) (failed x refl)
