-- ===== src/Notifications/Attempts.antt =====
-- app/services/notifications.py: what processing a job writes, how often a job is tried, and how
-- long it waits between.
use flyrank_capstone_widgetp.Base.{
  ℕ, ◌≤◌, ◌<◌, String, ◌≡◌, refl, List, arith, Option, none, some, leb, Bool-cases, inl, inr,
  leb→le,
}
use flyrank_capstone_widgetp.Config.{Config}
use flyrank_capstone_widgetp.Schema.{Job}
use flyrank_capstone_widgetp.Database.{Database}
use flyrank_capstone_widgetp.Notifications.{
  has_id, update_where, process, Webhook, process_notice, deliver, handle_failure, Notice, conclude,
  mark_delivered, mark_dead, payload_for, delivered_row, dead_row, rescheduled_row, backoff,
}

module _ (cfg : Config) (post : Webhook) (now : ℕ) (job : Job) where
  -- The change that processing a claimed job makes to its row.
  pub data Settles (found : Option Notice) : (Job → Job) → Type 0 where
    succeeded :
        (notice : Notice)
        → found ≡ some notice
        → deliver cfg post now notice ≡ none
        → Settles found delivered_row
    orphaned : found ≡ none → Settles found (dead_row "submission no longer exists")
    retried :
        (notice : Notice) (error : String)
        → found ≡ some notice
        → deliver cfg post now notice ≡ some error
        → job.attempts < cfg.notify_max_attempts
        → Settles found (rescheduled_row now (backoff job.attempts) error)
    given_up :
        (notice : Notice) (error : String)
        → found ≡ some notice
        → deliver cfg post now notice ≡ some error
        → cfg.notify_max_attempts ≤ job.attempts
        → Settles found (dead_row error)

  settled_notice :
      (found : Option Notice) (jobs : List Job)
      → (f : Job → Job) × Settles found f
        × (process_notice cfg post now job found jobs ≡ update_where (has_id job.id) f jobs)
  unfolding mark_dead
  settled_notice none jobs = (_, orphaned refl, refl)
  settled_notice (some notice) jobs = settled (deliver cfg post now notice) refl
    where
      failed :
          (error : String)
          → deliver cfg post now notice ≡ some error
          → (f : Job → Job) × Settles (some notice) f
            × (handle_failure cfg post now job error jobs ≡ update_where (has_id job.id) f jobs)
      failed error d = elim (Bool-cases (leb cfg.notify_max_attempts job.attempts)) [
        | inl e ↦ (
          dead_row error,
          given_up notice error refl d (leb→le _ _ e),
          unfold handle_failure in rw e,
        )
        | inr e ↦ (
          rescheduled_row now (backoff job.attempts) error,
          retried notice error refl d (ground arith),
          unfold handle_failure in rw e,
        )
      ]

      settled :
          (o : Option String)
          → deliver cfg post now notice ≡ o
          → (f : Job → Job) × Settles (some notice) f
            × (conclude cfg post now job (deliver cfg post now notice) jobs
                ≡ update_where (has_id job.id) f jobs)
      settled none d = (delivered_row, succeeded notice refl d, unfold mark_delivered in rw d)
      settled (some error) d = let rest = failed error d in (rest.0, rest.1, rw d rest.2)

  pub process-Settles :
      (db : Database)
      → (f : Job → Job) × Settles (payload_for job.submission_id db) f
        × (process cfg post now job db
            ≡ record db { jobs = update_where (has_id job.id) f db.jobs })
  unfolding process
  process-Settles db =
      let parts = settled_notice (payload_for job.submission_id db) db.jobs in
      (parts.0, parts.1, rw parts.2)
