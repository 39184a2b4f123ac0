-- ===== src/Notifications/Budget.antt =====
-- app/services/notifications.py: no job is tried more often than NOTIFY_MAX_ATTEMPTS.
use flyrank_capstone_widgetp.Base.{
  ℕ, ◌≤◌, ◌<◌, true, false, ◌≡◌, refl, subst, List, [], ◌∷◌, arith, All, Bool-cases, inl, inr,
  Option, if◌then◌else◌,
}
use flyrank_capstone_widgetp.Config.{Config}
use flyrank_capstone_widgetp.Schema.{Job}
use flyrank_capstone_widgetp.Database.{Database}
use flyrank_capstone_widgetp.Notifications.{
  is_pending, claimed, has_id, chosen, is_among, claim_due, Webhook, Notice, process,
}
use flyrank_capstone_widgetp.Notifications.Claims.{All-map}
use flyrank_capstone_widgetp.Notifications.Attempts.{
  Settles, succeeded, orphaned, retried, given_up, process-Settles,
}
use flyrank_capstone_widgetp.Notifications.Stuck.{Holds, Distinct, ids, only_row, not_among}

-- A job that waits has an attempt left, and no job has had more than the attempts there are.
abbrev pub InBudget : ℕ → Job → Type 0
InBudget limit j = if is_pending j.status then j.attempts < limit else j.attempts ≤ limit

pub each_row : (P : Job → Type 0) (jobs : List Job) → ((j : Job) → Holds j jobs → P j) → All P jobs
each_row P [] h = tt
each_row P (j ∷ jobs) h = (h j (inl refl), each_row P jobs (λ k m. h k (inr m)))

pub of_row : (P : Job → Type 0) (jobs : List Job) (k : Job) → All P jobs → Holds k jobs → P k
of_row P [] k a h = absurd h
of_row P (j ∷ jobs) k a (inl e) = subst P e a.0
of_row P (j ∷ jobs) k a (inr h) = of_row P jobs k a.1 h

row_claimed :
    (now batch limit : ℕ) (jobs : List Job) (j : Job)
    → Distinct (ids jobs)
    → All (InBudget limit) jobs
    → Holds j jobs
    → InBudget limit (if is_among (chosen now batch jobs) j then claimed j else j)
row_claimed now batch limit jobs j d a h = elim (Bool-cases (is_among (chosen now batch jobs) j)) [
  | inr e ↦ rw e (of_row (InBudget limit) jobs j a h)
  | inl e ↦ elim (Bool-cases (is_pending j.status)) [
    | inr n ↦ cc (not_among now batch jobs j d h n)
    | inl p ↦
        let left : j.attempts < limit = rw p at (of_row (InBudget limit) jobs j a h) in
        rw e (omega arith)
  ]
]

-- A claim keeps every job within its attempts: if each waiting job had an attempt left and no job had
-- more than the limit, it is so after the claim, which adds one to the attempts of what it takes.
pub claim_due-InBudget :
    (now batch limit : ℕ) (jobs : List Job)
    → Distinct (ids jobs)
    → All (InBudget limit) jobs
    → All (InBudget limit) (claim_due now batch jobs).0
unfolding claim_due
claim_due-InBudget now batch limit jobs d a =
    All-map (InBudget limit) (λ j. if is_among (chosen now batch jobs) j then claimed j else j) jobs
      (each_row _ jobs (λ j h. row_claimed now batch limit jobs j d a h))

All-apply :
    (P Q : Job → Type 0) (jobs : List Job) → All (λ j. P j → Q j) jobs → All P jobs → All Q jobs
All-apply P Q [] f a = tt
All-apply P Q (j ∷ jobs) f a = (f.0 a.0, All-apply P Q jobs f.1 a.1)

module _ (cfg : Config) (post : Webhook) (now : ℕ) (job : Job) where
  Settles-InBudget :
      (found : Option Notice) (f : Job → Job)
      → Settles cfg post now job found f
      → is_pending job.status ≡ false
      → InBudget cfg.notify_max_attempts job
      → InBudget cfg.notify_max_attempts (f job)
  Settles-InBudget found f (succeeded notice e d) n b = rw n at b
  Settles-InBudget found f (orphaned e) n b = rw n at b
  Settles-InBudget found f (retried notice error e d l) n b = l
  Settles-InBudget found f (given_up notice error e d l) n b = rw n at b

  -- Processing a claimed job, one that stands in the table as it was claimed, keeps every job within
  -- NOTIFY_MAX_ATTEMPTS: a job is set back to wait only while an attempt is left.
  pub process-InBudget :
      (db : Database)
      → Distinct (ids db.jobs)
      → Holds job db.jobs
      → is_pending job.status ≡ false
      → All (InBudget cfg.notify_max_attempts) db.jobs
      → All (InBudget cfg.notify_max_attempts) (process cfg post now job db).jobs
  process-InBudget db d h n a =
      let parts = process-Settles cfg post now job db in
      let budget = InBudget cfg.notify_max_attempts in
      let f = parts.0 in
      rw parts.2 (
        All-map budget (λ j. if has_id job.id j then f j else j) db.jobs
          (All-apply budget (λ j. budget (if has_id job.id j then f j else j)) db.jobs
            (only_row job db.jobs (λ j. budget j → budget (if has_id job.id j then f j else j)) d h
              (λ b.
                let own : has_id job.id job ≡ true = ground arith in
                rw own (Settles-InBudget _ f parts.1 n b))
              (λ j e b. rw e b))
            a))
