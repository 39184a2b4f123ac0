-- ===== src/Submissions/Total.antt =====
-- app/services/submissions.py: no submission ends in an uncaught exception, but for numbers that no
-- float can hold, for values that the server refuses and for what others delete meanwhile.
use flyrank_capstone_widgetp.Base.{
  sym, ◌∙◌, String, true, false, not, ◌≡◌, refl, Option, none, some, List, [], ◌∷◌, arith, any,
  find, lookup, select, str_eq, eq_refl, Bool-cases, Option-cases, inl, inr,
}
use flyrank_capstone_widgetp.Json.{Json, str, ℤ}
use flyrank_capstone_widgetp.Http.{
  Outcome, ok, http, crash, Exception, data_error, >>=-eq-crash, >>=-eq-ok,
}
use flyrank_capstone_widgetp.Schema.{Submission, Widget}
use flyrank_capstone_widgetp.RateLimit.{check}
use flyrank_capstone_widgetp.Validation.{validate_submission}
use flyrank_capstone_widgetp.Validation.Accepts.{validate_submission_refusals}
use flyrank_capstone_widgetp.Database.{Database, conflicts, find_by_idempotency_key, get_public}
use flyrank_capstone_widgetp.Database.Replays.{
  Creates, unstorable, taken, stored, gone, create-Creates, find_of_conflicts,
}
use flyrank_capstone_widgetp.Delivery.{get_active, active_or_404}
use flyrank_capstone_widgetp.Submissions.{
  Env, State, Moment, Context, Payload, Accepted, given_key, find_replay, accept, spam_of,
  new_submission, unexpected, is_allowed, answer, store_once, admit, submit, widget_of,
  reject_unknown_keys,
}

unexpected-ne-crash : (es : List (String × Json)) (x : Exception) → ¬ (unexpected es ≡ crash x)
unexpected-ne-crash [] x h = cc
unexpected-ne-crash (e ∷ es) x h = cc

active_or_404-ne-crash : (o : Option Widget) (x : Exception) → ¬ (active_or_404 o ≡ crash x)
active_or_404-ne-crash none x h = cc
active_or_404-ne-crash (some w) x h = ground arith

any_of_find :
    (id : String) (widgets : List Widget) (w : Widget)
    → find (λ v. str_eq v.id id) widgets ≡ some w
    → any (λ v. str_eq v.id w.id) widgets ≡ true
any_of_find id [] w h = cc
any_of_find id (v ∷ widgets) w h = elim (Bool-cases (str_eq v.id id)) [
  | inl e ↦ let same : v ≡ w = ground arith in rw same (rw (eq_refl w.id))
  | inr e ↦ ground (arith, any_of_find id widgets w)
]

active_or_404-eq-ok : (o : Option Widget) (w : Widget) → active_or_404 o ≡ ok w → o ≡ some w
active_or_404-eq-ok none w h = cc
active_or_404-eq-ok (some v) w h = ground arith

-- What the index holds is found.
refound :
    (widget_id : String) (key : Option String) (d : Database)
    → conflicts widget_id key d.submissions ≡ true
    → (row : Submission) × (find_replay widget_id key d ≡ some row)
unfolding find_by_idempotency_key
refound widget_id none d h = cc
refound widget_id (some key) d h = find_of_conflicts widget_id key d.submissions h

module _ (env : Env) (payload : Payload) (ctx : Context) (id : String) where
  -- Why a submission ends in an exception: the server refuses the id of the widget as a text, or the
  -- row that the accepted payload becomes.
  pub data Unstorable (db : Database) (x : Exception) : Type 0 where
    unsent : x ≡ data_error → db.takes id ≡ false → Unstorable db x
    unstored :
        (a : Accepted)
        → accept env payload db ≡ ok a
        → x ≡ data_error
        → db.accepts (new_submission env payload ctx a) ≡ false
        → Unstorable db x

module _ (env : Env) (m : Moment) (payload : Payload) (ctx : Context) (id : String)
    (textual : lookup "widget_id" payload ≡ some (str id))
    (floats : (n : ℤ) → ¬ (env.python.float_of_int n ≡ none))
    (alone : (db : Database) → m.before_create db ≡ db)
    (still : (db : Database) → m.before_refind db ≡ db) where
  widget_of-crash :
      (db : Database) (x : Exception)
      → widget_of (some (str id)) db ≡ crash x
      → (x ≡ data_error) × (db.takes id ≡ false)
  unfolding get_active get_public
  widget_of-crash db x h = elim (Bool-cases (db.takes id)) [
    | inl good ↦ absurd (active_or_404-ne-crash _ x (rw good at h))
    | inr bad ↦ (cc (rw bad at h), bad)
  ]

  accept-crash :
      (db : Database) (x : Exception)
      → accept env payload db ≡ crash x
      → (x ≡ data_error) × (db.takes id ≡ false)
  unfolding accept reject_unknown_keys
  accept-crash db x h = elim (>>=-eq-crash (widget_of (lookup "widget_id" payload) db) _ h) [
    | inl w ↦ widget_of-crash db x (rw textual at w)
    | inr (w, _, h') ↦ elim (>>=-eq-crash (reject_unknown_keys env.cfg payload) _ h') [
      | inl r ↦ absurd (unexpected-ne-crash (select (λ e. not (is_allowed env.cfg e)) payload) x r)
      | inr (_, _, h'') ↦
          elim (>>=-eq-crash
            (validate_submission env.cfg env.python w.fields (lookup "data" payload)) _ h'') [
              | inl v ↦
                  let found = (validate_submission_refusals env.cfg env.python w.fields _).1 x v in
                  absurd (floats found.1.2 found.1.5)
              | inr (_, _, f) ↦ cc f
            ]
    ]
  ]

  accepted_there :
      (db : Database) (a : Accepted)
      → accept env payload db ≡ ok a
      → any (λ w. str_eq w.id a.widget.id) db.widgets ≡ true
  unfolding accept get_active get_public
  accepted_there db a h =
      let w = >>=-eq-ok (widget_of (lookup "widget_id" payload) db) _ h in
      let r = >>=-eq-ok (reject_unknown_keys env.cfg payload) _ w.2 in
      let v =
        >>=-eq-ok (validate_submission env.cfg env.python w.0.fields (lookup "data" payload)) _
          r.2 in
      let same : w.0 ≡ a.widget = ground (arith, v.2) in
      elim (Bool-cases (db.takes id)) [
        | inr bad ↦ cc (rw (textual, bad) at w.1)
        | inl good ↦
            let found = active_or_404-eq-ok _ w.0 (rw (textual, good) at w.1) in
            rw (← same) (any_of_find id db.widgets w.0 found)
      ]

  answer-crash :
      (a : Accepted) (db d : Database) (created : Outcome (Option Submission)) (x : Exception)
      → any (λ w. str_eq w.id a.widget.id) db.widgets ≡ true
      → Creates m.now (new_submission env payload ctx a) db (d, created)
      → (answer env m payload ctx a d created).1 ≡ crash x
      → (x ≡ data_error) × (db.accepts (new_submission env payload ctx a) ≡ false)
  answer-crash a db d created x there (unstorable b e p j) h = (cc (rw (e, answer) at h), b)
  answer-crash a db d created x there (taken c e p j) h =
      let found = refound a.widget.id ctx.idempotency_key (m.before_refind d) (rw (still d, p) c) in
      cc (rw found.1 at (rw (e, answer) at h))
  answer-crash a db d created x there (stored c e p) h = cc (rw (e, answer) at h)
  answer-crash a db d created x there (gone c w e p j) h = cc

  store_once-crash :
      (a : Accepted) (db : Database) (x : Exception)
      → any (λ w. str_eq w.id a.widget.id) db.widgets ≡ true
      → (store_once env m payload ctx a db).1 ≡ crash x
      → (x ≡ data_error) × (db.accepts (new_submission env payload ctx a) ≡ false)
  unfolding store_once
  store_once-crash a db x there h =
      elim (Option-cases (find_replay a.widget.id (given_key ctx.idempotency_key) db)) [
        | inr (row, f) ↦ cc (rw (f, store_once) at h)
        | inl n ↦ rw (alone db) at (
            answer-crash a (m.before_create db) _ _ x (rw (alone db) there)
              (create-Creates m.now (new_submission env payload ctx a) (not (spam_of env payload))
                (m.before_create db))
              (rw (n, store_once) at h))
      ]

  admit-crash :
      (a : Accepted) (s : State) (x : Exception)
      → any (λ w. str_eq w.id a.widget.id) s.db.widgets ≡ true
      → (admit env m payload ctx a s).1 ≡ crash x
      → (x ≡ data_error) × (s.db.accepts (new_submission env payload ctx a) ≡ false)
  unfolding admit
  admit-crash a s x there h =
      elim (Option-cases (check env.hz m.readings ctx.ip a.widget.id s.limiter).1) [
        | inl n ↦ store_once-crash a s.db x there (rw (n, admit) at h)
        | inr (v, e) ↦ cc (rw (e, admit) at h)
      ]

  -- With a textual widget id, as the envelope demands, with ints that a float can hold, and with
  -- nothing committed by others meanwhile, a submission ends in an exception only where the server
  -- refuses its values, in any state.
  pub submit_total :
      (s : State) (x : Exception)
      → (submit env m payload ctx s).1 ≡ crash x
      → Unstorable env payload ctx id s.db x
  unfolding submit
  submit_total s x = go (accept env payload s.db) refl
    where
      go :
          (r : Outcome Accepted)
          → accept env payload s.db ≡ r
          → (submit env m payload ctx s).1 ≡ crash x
          → Unstorable env payload ctx id s.db x
      go (ok a) e h =
          let why = admit-crash a s x (accepted_there s.db a e) (rw (e, submit) at h) in
          unstored a e why.0 why.1
      go (http y) e h = cc (rw (e, submit) at h)
      go (crash y) e h =
          let why = accept-crash s.db y e in
          let same : y ≡ x = ground (arith, (rw (e, submit) at h)) in
          unsent ((sym same ∙ why.0)) why.1
