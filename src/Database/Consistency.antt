-- ===== src/Database/Consistency.antt =====
-- app/repositories/submissions.py: the tables stay consistent under `create`.
use flyrank_capstone_widgetp.Base.{
  ℕ, ◌+◌, ◌<◌, String, Bool, true, false, not, ◌≡◌, refl, Option, none, some, List, [], ◌∷◌, ◌++◌,
  arith, any, count, All, All-append, count-append, ◌==◌, str_eq, Bool-cases, inl, inr,
  if◌then◌else◌, eq_iff,
}
use flyrank_capstone_widgetp.Schema.{Submission, Job}
use flyrank_capstone_widgetp.Database.{
  Database, NewSubmission, new_row, new_job, conflicts, insert_job, create,
}

-- No two rows share a widget and a key.
abbrev pub Keyed : List Submission → Type 0
Keyed [] = Unit {0}
Keyed (row ∷ rows) = (conflicts row.widget_id row.idempotency_key rows ≡ false) × Keyed rows

abbrev pub jobs_for : ℕ → List Job → ℕ
jobs_for id = count (λ j. j.submission_id == id)

-- A lead has exactly one job, and what the honeypot caught has none.
abbrev pub Served : List Job → Submission → Type 0
Served jobs row = jobs_for row.id jobs ≡ (if row.is_spam then 0 else 1)

pub record IsValid (db : Database) : Type 0 where
  pub keyed : Keyed db.submissions
  pub fresh : All (λ row. row.id < db.next_submission) db.submissions
  pub served : All (Served db.jobs) db.submissions
  pub owned : All (λ j. j.submission_id < db.next_submission) db.jobs

pub no_jobs_above :
    (n : ℕ) (jobs : List Job)
    → All (λ j. j.submission_id < n) jobs
    → (jobs_for n jobs ≡ 0) × (any (λ j. j.submission_id == n) jobs ≡ false)
no_jobs_above n [] h = (refl, refl)
no_jobs_above n (j ∷ jobs) h = ground (arith, no_jobs_above n jobs h.1)

owned_later :
    (n : ℕ) (jobs : List Job)
    → All (λ j. j.submission_id < n) jobs
    → All (λ j. j.submission_id < n + 1) jobs
owned_later n [] h = tt
owned_later n (j ∷ jobs) h = (omega arith, owned_later n jobs h.1)

fresh_later :
    (n : ℕ) (rows : List Submission) → All (λ r. r.id < n) rows → All (λ r. r.id < n + 1) rows
fresh_later n [] h = tt
fresh_later n (r ∷ rows) h = (omega arith, fresh_later n rows h.1)

-- A job for a new row serves no older one.
Served-later :
    (id now n : ℕ) (jobs : List Job) (rows : List Submission)
    → All (λ r. r.id < n) rows
    → All (Served jobs) rows
    → All (Served (jobs ++ new_job id now n ∷ [])) rows
Served-later id now n jobs [] f s = tt
Served-later id now n jobs (r ∷ rows) f s = (
  ground (arith, count-append (λ j. j.submission_id == r.id) jobs (new_job id now n ∷ [])),
  Served-later id now n jobs rows f.1 s.1,
)

-- An index entry that is not there is not there among the earlier rows either.
conflicts-append :
    (widget_id : String) (key : Option String) (rows : List Submission) (row : Submission)
    → conflicts widget_id key rows ≡ false
    → conflicts widget_id key (row ∷ []) ≡ false
    → conflicts widget_id key (rows ++ row ∷ []) ≡ false
conflicts-append widget_id none rows row h k = refl
conflicts-append widget_id (some key) [] row h k = k
conflicts-append widget_id (some key) (r ∷ rows) row h k =
    ground (arith, conflicts-append widget_id (some key) rows row)

str_eq_comm : (a b : String) → str_eq a b ≡ str_eq b a
str_eq_comm a b = ground (arith, eq_iff a b, eq_iff b a)

key_pair_sym :
    (a b : String) (k l : Option String) (r row : Submission)
    → r.widget_id ≡ a
    → r.idempotency_key ≡ k
    → row.widget_id ≡ b
    → row.idempotency_key ≡ l
    → conflicts b l (r ∷ []) ≡ false
    → conflicts a k (row ∷ []) ≡ false
key_pair_sym a b none l r row ra rk rb rl h = refl
key_pair_sym a b (some k) none r row ra rk rb rl h = rw (rl, rb) (ground arith)
key_pair_sym a b (some k) (some l) r row ra rk rb rl h =
    ground (arith, str_eq_comm a b, str_eq_comm k l)

conflict_sym :
    (r row : Submission)
    → conflicts row.widget_id row.idempotency_key (r ∷ []) ≡ false
    → conflicts r.widget_id r.idempotency_key (row ∷ []) ≡ false
conflict_sym r row h =
    key_pair_sym r.widget_id row.widget_id r.idempotency_key row.idempotency_key r row refl refl
      refl refl h

conflicts-cons :
    (row r : Submission) (rows : List Submission)
    → conflicts row.widget_id row.idempotency_key (r ∷ rows) ≡ false
    → (conflicts row.widget_id row.idempotency_key (r ∷ []) ≡ false)
      × (conflicts row.widget_id row.idempotency_key rows ≡ false)
conflicts-cons row r rows h = ground arith

Keyed-append :
    (rows : List Submission) (row : Submission)
    → Keyed rows
    → conflicts row.widget_id row.idempotency_key rows ≡ false
    → Keyed (rows ++ row ∷ [])
Keyed-append [] row k c = (ground arith, tt)
Keyed-append (r ∷ rows) row k c =
    let parts = conflicts-cons row r rows c in
    (
      conflicts-append r.widget_id r.idempotency_key rows row k.0 (conflict_sym r row parts.0),
      Keyed-append rows row k.1 parts.1,
    )

insert_job-jobs :
    (now id : ℕ) (db : Database)
    → All (λ j. j.submission_id < id) db.jobs
    → (insert_job now id db).jobs ≡ db.jobs ++ new_job db.next_job now id ∷ []
unfolding insert_job
insert_job-jobs now id db h = rw (no_jobs_above id db.jobs h).1

pub insert_job-rest :
    (now id : ℕ) (db : Database)
    → ((insert_job now id db).submissions ≡ db.submissions)
      × ((insert_job now id db).next_submission ≡ db.next_submission)
      × ((insert_job now id db).widgets ≡ db.widgets)
unfolding insert_job
insert_job-rest now id db = ground arith

-- A stored lead with its job.
lead-IsValid :
    (now : ℕ) (s : NewSubmission) (db : Database)
    → s.is_spam ≡ false
    → conflicts s.widget_id s.idempotency_key db.submissions ≡ false
    → IsValid db
    → IsValid (record db {
      submissions = db.submissions ++ new_row db.next_submission now s ∷ [];
      jobs = db.jobs ++ new_job db.next_job now db.next_submission ∷ [];
      next_submission = db.next_submission + 1;
      next_job = db.next_job + 1;
    })
lead-IsValid now s db lead free v =
    let row = new_row db.next_submission now s in
    let n = db.next_submission in
    let job = new_job db.next_job now n in
    record {
      keyed = Keyed-append db.submissions row v.keyed free;
      fresh =
          All-append (λ r. r.id < n + 1) db.submissions (row ∷ []) (fresh_later n _ v.fresh)
            (omega arith, tt);
      served =
          All-append (Served (db.jobs ++ job ∷ [])) db.submissions (row ∷ [])
            (Served-later db.next_job now n db.jobs _ v.fresh v.served)
            (
              rw lead (
                  ground (
                    arith,
                    count-append (λ j. j.submission_id == n) db.jobs (job ∷ []),
                    (no_jobs_above n db.jobs v.owned).0,
                  )),
              tt,
            );
      owned =
          All-append (λ j. j.submission_id < n + 1) db.jobs (job ∷ []) (owned_later n _ v.owned)
            (omega arith, tt);
    }

-- What the honeypot caught, with no job.
spam-IsValid :
    (now : ℕ) (s : NewSubmission) (db : Database)
    → s.is_spam ≡ true
    → conflicts s.widget_id s.idempotency_key db.submissions ≡ false
    → IsValid db
    → IsValid (record db {
      submissions = db.submissions ++ new_row db.next_submission now s ∷ [];
      next_submission = db.next_submission + 1;
    })
spam-IsValid now s db spam free v =
    let row = new_row db.next_submission now s in
    let n = db.next_submission in
    record {
      keyed = Keyed-append db.submissions row v.keyed free;
      fresh =
          All-append (λ r. r.id < n + 1) db.submissions (row ∷ []) (fresh_later n _ v.fresh)
            (omega arith, tt);
      served =
          All-append (Served db.jobs) db.submissions (row ∷ []) v.served
            (rw spam (no_jobs_above n db.jobs v.owned).0, tt);
      owned = owned_later n _ v.owned;
    }

drawn-IsValid :
    (db : Database) → IsValid db → IsValid (record db { next_submission = db.next_submission + 1 })
drawn-IsValid db v = record {
  keyed = v.keyed;
  fresh = fresh_later db.next_submission _ v.fresh;
  served = v.served;
  owned = owned_later db.next_submission _ v.owned;
}

-- `create`, told to notify about leads only, keeps the tables consistent on every branch.
pub create-IsValid :
    (now : ℕ) (s : NewSubmission) (notify : Bool) (db : Database)
    → notify ≡ not s.is_spam
    → IsValid db
    → IsValid (create now s notify db).0
unfolding create insert_job
create-IsValid now s notify db e v = elim (Bool-cases (db.accepts s)) [
  | inr bad ↦ rw bad v
  | inl good ↦ elim (Bool-cases (conflicts s.widget_id s.idempotency_key db.submissions)) [
    | inl taken ↦ rw (good, taken) (drawn-IsValid db v)
    | inr free ↦ elim (Bool-cases (any (λ w. str_eq w.id s.widget_id) db.widgets)) [
      | inr gone ↦ rw (good, free, gone) (drawn-IsValid db v)
      | inl there ↦ elim (Bool-cases notify) [
        | inr spam ↦ rw (good, free, there, spam) (spam-IsValid now s db (ground arith) free v)
        | inl lead ↦
            rw (good, free, there, lead, (no_jobs_above db.next_submission db.jobs v.owned).1)
              (lead-IsValid now s db (ground arith) free v)
      ]
    ]
  ]
]
