-- ===== src/Notifications/Worker.antt =====
-- app/services/notifications.py: the loop of `run`. A turn ends well, or by an exception of a
-- statement: of the claim, or of the settling of one of the claimed jobs, after some others.
use flyrank_capstone_widgetp.Base.{
  ℕ, Bool, true, false, Option, none, some, List, [], ◌∷◌, count, take, ◌==◌, if◌then◌else◌,
}
use flyrank_capstone_widgetp.Config.{Config}
use flyrank_capstone_widgetp.Schema.{Job, Status, pending, processing, delivered, dead}
use flyrank_capstone_widgetp.Database.{Database}
use flyrank_capstone_widgetp.Notifications.{batch_size, claim_due, process_all, Webhook}

-- `unclaimed`: the claim raised; `batch`: when the claim was made, when each job is settled, and after
-- how many jobs an exception ended the turn, if one did.
pub data Turn : Type 0 where
  unclaimed : Turn
  batch : ℕ → (Job → ℕ) → Option ℕ → Turn

abbrev pub settled_of : Option ℕ → List Job → List Job
settled_of none jobs = jobs
settled_of (some n) jobs = take n jobs

module _ (cfg : Config) (post : Webhook) where
  -- The `try` in the loop of `run`.
  unfoldable pub turn : Turn → Database → Database
  unfolding claim_due process_all
  turn unclaimed db = db
  turn (batch now at ends_after) db =
      let (jobs, held) = claim_due now batch_size db.jobs in
      process_all cfg post at (settled_of ends_after held) (record db { jobs = jobs })

  -- `run`
  unfoldable pub run : List Turn → Database → Database
  unfolding turn
  run [] db = db
  run (t ∷ turns) db = run turns (turn t db)

abbrev pub same_status : Status → Status → Bool
same_status pending pending = true
same_status processing processing = true
same_status delivered delivered = true
same_status dead dead = true
same_status _ _ = false

abbrev pub if_some : Status → ℕ → List (Status × ℕ) → List (Status × ℕ)
if_some status total rest = if total == 0 then rest else (status, total) ∷ rest

abbrev pub total_of : Status → List Job → ℕ
total_of status jobs = count (λ j. same_status j.status status) jobs

-- `counts_by_status`
unfoldable pub counts_by_status : List Job → List (Status × ℕ)
counts_by_status jobs = if_some pending (total_of pending jobs) (
    if_some processing (total_of processing jobs)
      (if_some delivered (total_of delivered jobs) (if_some dead (total_of dead jobs) [])))
