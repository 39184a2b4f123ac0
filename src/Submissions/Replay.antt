-- ===== src/Submissions/Replay.antt =====
-- app/services/submissions.py: a request that comes twice.
use flyrank_capstone_widgetp.Base.{
  ℕ, String, Bool, true, false, not, ◌≡◌, ◌≢◌, refl, ap, Option, none, some, ◌++◌, [], ◌∷◌,
  Option-cases, inl, inr, find, List, eq_iff, ◌⊎◌, arith, str_eq-ne, Bool-cases,
}
use flyrank_capstone_widgetp.Http.{Outcome, ok, http, crash}
use flyrank_capstone_widgetp.Schema.{Submission}
use flyrank_capstone_widgetp.RateLimit.{check}
use flyrank_capstone_widgetp.Database.{
  Database, key_is, is_replay, conflicts, find_by_idempotency_key, new_row,
}
use flyrank_capstone_widgetp.Database.Replays.{
  Creates, unstorable, taken, stored, gone, create-Creates, find-new_row,
}
use flyrank_capstone_widgetp.Submissions.{
  Env, State, Moment, Context, Receipt, Payload, Accepted, given_key, find_replay, receipt, accept,
  spam_of, new_submission, answer, new_answer, replay_answer, store_once, admit, submit, with_db,
}

module _ (env : Env) (m : Moment) (payload : Payload) (ctx : Context) where
  -- Accepted and within the limits, a submission goes on from the look for a replay.
  submit-store_once :
      (s : State) (a : Accepted)
      → accept env payload s.db ≡ ok a
      → (check env.hz m.readings ctx.ip a.widget.id s.limiter).1 ≡ none
      → submit env m payload ctx s
        ≡ with_db env
            (check env.hz m.readings ctx.ip a.widget.id s.limiter).0
            (store_once env m payload ctx a s.db)
  unfolding submit admit
  submit-store_once s a acc free = rw (acc, submit) (rw (free, admit))

  store_once_known :
      (a : Accepted) (db : Database) (row : Submission)
      → find_replay a.widget.id (given_key ctx.idempotency_key) db ≡ some row
      → store_once env m payload ctx a db ≡ (db, ok (receipt row true, 200))
  unfolding store_once
  store_once_known a db row f = rw (f, store_once)

-- What is found under the key after an answer.
abbrev Known : String → String → Database → ℕ → Type 0
Known widget_id key db id =
    (row : Submission) × (find_replay widget_id (some key) db ≡ some row) × (row.id ≡ id)

module _ (env : Env) (m : Moment) (payload : Payload) (ctx : Context) (key : String)
    (given : ctx.idempotency_key ≡ some key) where
  key-given : key ≢ "" → given_key ctx.idempotency_key ≡ some key
  key-given ne = rw given (rw (str_eq-ne key "" ne))

  Known-new :
      (a : Accepted) (db d : Database) (spam : Bool) (rec : Receipt) (code : ℕ)
      → conflicts a.widget.id ctx.idempotency_key db.submissions ≡ false
      → let row = new_row db.next_submission m.now (new_submission env payload ctx a) in
        d.submissions ≡ db.submissions ++ row ∷ []
        → new_answer env spam row ≡ (rec, code)
        → Known a.widget.id key d rec.id
  unfolding find_by_idempotency_key
  Known-new a db d spam rec code free p h =
      let new = new_submission env payload ctx a in
      let row = new_row db.next_submission m.now new in
      (
        row,
        rw p (find-new_row m.now db.next_submission new db.submissions key given free),
        elim (Bool-cases spam) [
          | inl e ↦ ap (λ (x : Receipt × ℕ). x.0.id) (rw e at h)
          | inr e ↦ ap (λ (x : Receipt × ℕ). x.0.id) (rw e at h)
        ],
      )

  Known-taken :
      (widget_id : String) (d : Database) (o : Option Submission) (rec : Receipt) (code : ℕ)
      → find_replay widget_id ctx.idempotency_key d ≡ o
      → replay_answer env o ≡ ok (rec, code)
      → Known widget_id key d rec.id
  Known-taken widget_id d none rec code f h = cc h
  Known-taken widget_id d (some row) rec code f h = (row, rw given at f, ground arith)

  Known-answer :
      (a : Accepted) (db d : Database) (created : Outcome (Option Submission)) (rec : Receipt)
      (code : ℕ)
      → Creates m.now (new_submission env payload ctx a) db (d, created)
      → (answer env m payload ctx a d created).1 ≡ ok (rec, code)
      → Known a.widget.id key (answer env m payload ctx a d created).0 rec.id
  Known-answer a db d created rec code (unstorable b e p j) h = cc (rw (e, answer) at h)
  Known-answer a db d created rec code (taken c e p j) h =
      rw (e, answer)
        (Known-taken a.widget.id (m.before_refind d) _ rec code refl (rw (e, answer) at h))
  Known-answer a db d created rec code (stored c e p) h =
      rw (e, answer)
        (Known-new a db d (spam_of env payload) rec code c p (ground (arith, rw (e, answer) at h)))
  Known-answer a db d created rec code (gone c w e p j) h = cc (rw (e, answer) at h)

  Known-store_once :
      (a : Accepted) (db : Database) (rec : Receipt) (code : ℕ)
      → key ≢ ""
      → (store_once env m payload ctx a db).1 ≡ ok (rec, code)
      → Known a.widget.id key (store_once env m payload ctx a db).0 rec.id
  unfolding store_once
  Known-store_once a db rec code ne h =
      elim (Option-cases (find_replay a.widget.id (given_key ctx.idempotency_key) db)) [
        | inr (row, f) ↦
            rw (f, store_once)
              (row, rw (key-given ne) at f, ground (arith, rw (f, store_once) at h))
        | inl n ↦
            rw (n, store_once)
              (Known-answer a (m.before_create db) _ _ rec code
                (create-Creates m.now (new_submission env payload ctx a) (not (spam_of env payload))
                  (m.before_create db))
                (rw (n, store_once) at h))
      ]

  Known-admit :
      (a : Accepted) (s : State) (rec : Receipt) (code : ℕ)
      → key ≢ ""
      → (admit env m payload ctx a s).1 ≡ ok (rec, code)
      → Known a.widget.id key (admit env m payload ctx a s).0.db rec.id
  unfolding admit
  Known-admit a s rec code ne h =
      elim (Option-cases (check env.hz m.readings ctx.ip a.widget.id s.limiter).1) [
        | inr (v, e) ↦ cc (rw (e, admit) at h)
        | inl n ↦ rw (n, admit) (Known-store_once a s.db rec code ne (rw (n, admit) at h))
      ]

-- A request that was answered with a receipt, sent again under its key: the second arrival is
-- answered with a 200, the same number and the status "replayed", and the tables stay as they were.
-- The second may differ in all but the widget and the key, if it is accepted and within the limits.
pub submit-submit :
    (env : Env) (first second : Moment) (payload again : Payload) (ctx other : Context)
    (key : String) (s t : State) (a b : Accepted) (rec : Receipt) (code : ℕ)
    → key ≢ ""
    → ctx.idempotency_key ≡ some key
    → other.idempotency_key ≡ some key
    → accept env payload s.db ≡ ok a
    → (check env.hz first.readings ctx.ip a.widget.id s.limiter).1 ≡ none
    → (submit env first payload ctx s).1 ≡ ok (rec, code)
    → t.db ≡ (submit env first payload ctx s).0.db
    → accept env again t.db ≡ ok b
    → b.widget.id ≡ a.widget.id
    → (check env.hz second.readings other.ip b.widget.id t.limiter).1 ≡ none
    → ((submit env second again other t).0.db ≡ t.db)
      × ((submit env second again other t).1
          ≡ ok (record { id = rec.id; status = "replayed" }, 200))
submit-submit env first second payload again ctx other key s t a b rec code ne k k' acc free h left
      acc' same free' =
    let one = submit-store_once env first payload ctx s a acc free in
    let two = submit-store_once env second again other t b acc' free' in
    let known = Known-store_once env first payload ctx key k a s.db rec code ne (rw one at h) in
    let where_ : t.db ≡ (store_once env first payload ctx a s.db).0 = rw one at left in
    let found : find_replay b.widget.id (given_key other.idempotency_key) t.db ≡ some known.0 =
      rw (key-given env second again other key k' ne, same, where_) known.1 in
    let answered = store_once_known env second again other b t.db known.0 found in
    rw (two, answered) (refl, rw known.2)

abbrev pub Among : Submission → List Submission → Type 0
Among row [] = ⊥
Among row (r ∷ rows) = (r ≡ row) ⊎ Among row rows

-- The tables have a submission of this widget under this key and this number.
pub record HasReceipt (widget_id key : String) (id : ℕ) (db : Database) : Type 0 where
  pub row : Submission
  pub there : Among row db.submissions
  pub of_widget : row.widget_id ≡ widget_id
  pub under_key : row.idempotency_key ≡ some key
  pub numbered : row.id ≡ id

key_is-eq : (key : String) (o : Option String) → key_is key o ≡ true → o ≡ some key
key_is-eq key none h = cc
key_is-eq key (some k) h = ground (arith, h, eq_iff k key)

found-Among :
    (widget_id key : String) (rows : List Submission) (row : Submission)
    → find (is_replay widget_id key) rows ≡ some row
    → Among row rows × (row.widget_id ≡ widget_id) × (row.idempotency_key ≡ some key)
found-Among widget_id key [] row h = cc
found-Among widget_id key (r ∷ rows) row h = elim (Bool-cases (is_replay widget_id key r)) [
  | inr e ↦ let f = found-Among widget_id key rows row (rw e at h) in (inr f.0, f.1, f.2)
  | inl e ↦
      let same : r ≡ row = ground (arith, rw e at h) in
      rw (← same) (
        inl refl,
        ground (arith, eq_iff r.widget_id widget_id),
        key_is-eq key r.idempotency_key (ground arith),
      )
]

Known-HasReceipt :
    (widget_id key : String) (db : Database) (id : ℕ)
    → Known widget_id key db id
    → HasReceipt widget_id key id db
unfolding find_by_idempotency_key
Known-HasReceipt widget_id key db id (row, found, same) =
    let f = found-Among widget_id key db.submissions row found in
    record { row = row; there = f.0; of_widget = f.1; under_key = f.2; numbered = same }

-- The number of every receipt under a key that is not empty is that of a submission which the tables
-- then have, of the accepted widget and under that key: whether the request stored the row itself,
-- found it at once, or lost the race for its key to another request that stored it in between, and
-- whatever others commit meanwhile.
pub submit-HasReceipt :
    (env : Env) (m : Moment) (payload : Payload) (ctx : Context) (key : String) (s : State)
    (rec : Receipt) (code : ℕ)
    → ctx.idempotency_key ≡ some key
    → key ≢ ""
    → (submit env m payload ctx s).1 ≡ ok (rec, code)
    → (a : Accepted) × (accept env payload s.db ≡ ok a)
      × HasReceipt a.widget.id key rec.id (submit env m payload ctx s).0.db
unfolding submit
submit-HasReceipt env m payload ctx key s rec code given ne h = go (accept env payload s.db) refl
  where
    go :
        (r : Outcome Accepted)
        → accept env payload s.db ≡ r
        → (a : Accepted) × (accept env payload s.db ≡ ok a)
          × HasReceipt a.widget.id key rec.id (submit env m payload ctx s).0.db
    go (http e) k = cc (rw (k, submit) at h)
    go (crash x) k = cc (rw (k, submit) at h)
    go (ok a) k =
        let known = Known-admit env m payload ctx key given a s rec code ne (rw (k, submit) at h) in
        (a, k, rw (k, submit) (Known-HasReceipt a.widget.id key _ rec.id known))
