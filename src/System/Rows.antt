-- ===== src/System/Rows.antt =====
-- app/repositories: what makes the tables of submissions and jobs consistent.
use flyrank_capstone_widgetp.Base.{
  ℕ, ◌+◌, ◌<◌, ◌≤◌, Bool, false, not, ◌≡◌, refl, List, [], ◌∷◌, ◌++◌, arith, any, All, All-append,
  str_eq, Bool-cases, inl, inr,
}
use flyrank_capstone_widgetp.Schema.{Submission, Job}
use flyrank_capstone_widgetp.Database.{
  Database, NewSubmission, conflicts, new_row, new_job, insert_job, create,
}
use flyrank_capstone_widgetp.Database.Consistency.{IsValid, create-IsValid, no_jobs_above}
use flyrank_capstone_widgetp.Notifications.Stuck.{Distinct, ids, is_in}
use flyrank_capstone_widgetp.Notifications.Budget.{InBudget}
use flyrank_capstone_widgetp.System.Deletes.{numbers}

-- The tables are consistent, their primary keys are unique and behind the sequences, and no job has had
-- more attempts than there are.
pub record AreRows (limit : ℕ) (db : Database) : Type 0 where
  pub valid : IsValid db
  pub single : Distinct (numbers db.submissions)
  pub distinct : Distinct (ids db.jobs)
  pub below : All (λ j. j.id < db.next_job) db.jobs
  pub budget : All (InBudget limit) db.jobs

fresh_number :
    (n : ℕ) (rows : List Submission)
    → All (λ r. r.id < n) rows
    → Distinct (numbers rows)
    → (row : Submission) → row.id ≡ n
    → Distinct (numbers (rows ++ row ∷ []))
fresh_number n [] f d row e = (refl, tt)
fresh_number n (r ∷ rows) f d row e = (apart_last rows d.0, fresh_number n rows f.1 d.1 row e)
  where
    apart_last :
        (rs : List Submission)
        → is_in r.id (numbers rs) ≡ false
        → is_in r.id (numbers (rs ++ row ∷ [])) ≡ false
    apart_last [] h = ground (arith, e, f.0)
    apart_last (s ∷ rs) h = ground (arith, h, apart_last rs)

fresh_job :
    (n : ℕ) (jobs : List Job)
    → All (λ j. j.id < n) jobs
    → Distinct (ids jobs)
    → (job : Job) → job.id ≡ n
    → Distinct (ids (jobs ++ job ∷ []))
fresh_job n [] f d job e = (refl, tt)
fresh_job n (j ∷ jobs) f d job e = (apart_last jobs d.0, fresh_job n jobs f.1 d.1 job e)
  where
    apart_last :
        (js : List Job) → is_in j.id (ids js) ≡ false → is_in j.id (ids (js ++ job ∷ [])) ≡ false
    apart_last [] h = ground (arith, e, f.0)
    apart_last (k ∷ js) h = ground (arith, h, apart_last js)

below_later : (n : ℕ) (jobs : List Job) → All (λ j. j.id < n) jobs → All (λ j. j.id < n + 1) jobs
below_later n [] h = tt
below_later n (j ∷ jobs) h = (omega arith, below_later n jobs h.1)

-- What an insert leaves of the primary keys and the attempts.
create_keys :
    (limit now : ℕ) (s : NewSubmission) (notify : Bool) (db : Database)
    → 1 ≤ limit
    → AreRows limit db
    → let after = (create now s notify db).0 in
      Distinct (numbers after.submissions)
      × Distinct (ids after.jobs)
      × All (λ j. j.id < after.next_job) after.jobs
      × All (InBudget limit) after.jobs
unfolding create insert_job
create_keys limit now s notify db some_try v =
    let row = new_row db.next_submission now s in
    let job = new_job db.next_job now db.next_submission in
    let rows = fresh_number db.next_submission db.submissions v.valid.fresh v.single row refl in
    elim (Bool-cases (db.accepts s)) [
      | inr bad ↦ rw bad (v.single, v.distinct, v.below, v.budget)
      | inl good ↦ elim (Bool-cases (conflicts s.widget_id s.idempotency_key db.submissions)) [
        | inl taken ↦ rw (good, taken) (v.single, v.distinct, v.below, v.budget)
        | inr free ↦ elim (Bool-cases (any (λ w. str_eq w.id s.widget_id) db.widgets)) [
          | inr gone ↦ rw (good, free, gone) (v.single, v.distinct, v.below, v.budget)
          | inl there ↦ elim (Bool-cases notify) [
            | inr spam ↦ rw (good, free, there, spam) (rows, v.distinct, v.below, v.budget)
            | inl lead ↦
                rw
                  (
                    good,
                    free,
                    there,
                    lead,
                    (no_jobs_above db.next_submission db.jobs v.valid.owned).1,
                  )
                  (
                    rows,
                    fresh_job db.next_job db.jobs v.below v.distinct job refl,
                    All-append (λ j. j.id < db.next_job + 1) db.jobs (job ∷ [])
                        (below_later db.next_job db.jobs v.below) (omega arith, tt),
                    All-append (InBudget limit) db.jobs (job ∷ []) v.budget (omega arith, tt),
                  )
          ]
        ]
      ]
    ]

-- The insert of a submission, with its job.
pub create-AreRows :
    (limit now : ℕ) (s : NewSubmission) (notify : Bool) (db : Database)
    → 1 ≤ limit
    → notify ≡ not s.is_spam
    → AreRows limit db
    → AreRows limit (create now s notify db).0
create-AreRows limit now s notify db some_try e v =
    let parts = create_keys limit now s notify db some_try v in
    record {
      valid = create-IsValid now s notify db e v.valid;
      single = parts.0;
      distinct = parts.1;
      below = parts.2;
      budget = parts.3;
    }
