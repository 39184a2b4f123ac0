-- ===== src/Notifications/Runs.antt =====
-- app/services/notifications.py: what the worker makes of the table, turn after turn.
use flyrank_capstone_widgetp.Base.{
  ℕ, ◌<◌, false, ◌≡◌, refl, ◌∙◌, Option, none, some, List, [], ◌∷◌, arith, All,
}
use flyrank_capstone_widgetp.Config.{Config}
use flyrank_capstone_widgetp.Schema.{Job, processing}
use flyrank_capstone_widgetp.Database.{Database}
use flyrank_capstone_widgetp.Notifications.{claim_due, Webhook, process, process_all, batch_size}
use flyrank_capstone_widgetp.Notifications.Claims.{All-take}
use flyrank_capstone_widgetp.Notifications.Stuck.{
  Holds, Distinct, ids, is_in, ids-process, ids-claim_due, process-Holds,
}
use flyrank_capstone_widgetp.Notifications.Budget.{InBudget}
use flyrank_capstone_widgetp.Notifications.Batches.{
  Distinct-take, Distinct-claim_due, Holds-claim_due,
}
use flyrank_capstone_widgetp.Notifications.Lifecycle.{
  Edge, claims, delivers, retries, buries, Course, here, further, Evolves, Evolves-refl,
  Evolves-join, Evolves-claim_due, Evolves-process,
}
use flyrank_capstone_widgetp.Notifications.Worker.{Turn, unclaimed, batch, settled_of, turn, run}

-- The claimed jobs that are left stand in the table as they were claimed.
abbrev pub Held : List Job → List Job → Type 0
Held jobs held = All (λ j. Holds j jobs × (j.status ≡ processing)) held

module _ (cfg : Config) (post : Webhook) where
  pub Held-process :
      (now : ℕ) (job : Job) (db : Database) (held : List Job)
      → is_in job.id (ids held) ≡ false
      → Held db.jobs held
      → Held (process cfg post now job db).jobs held
  Held-process now job db [] n h = tt
  Held-process now job db (j ∷ held) n h = (
    (process-Holds cfg post now job db j (ground (arith, n)) h.0.0, h.0.1),
    Held-process now job db held (ground (arith, n)) h.1,
  )

  pub ids-process_all :
      (at : Job → ℕ) (held : List Job) (db : Database)
      → ids (process_all cfg post at held db).jobs ≡ ids db.jobs
  unfolding process_all
  ids-process_all at [] db = refl
  ids-process_all at (job ∷ held) db =
      ids-process_all at held (process cfg post (at job) job db)
      ∙ ids-process cfg post (at job) job db

  pub Evolves-process_all :
      (at : Job → ℕ) (held : List Job) (db : Database)
      → Distinct (ids db.jobs)
      → Distinct (ids held)
      → Held db.jobs held
      → Evolves cfg.notify_max_attempts db.jobs (process_all cfg post at held db).jobs
  unfolding process_all
  Evolves-process_all at [] db d e h = Evolves-refl cfg.notify_max_attempts db.jobs
  Evolves-process_all at (job ∷ held) db d e h =
      let next = process cfg post (at job) job db in
      Evolves-join cfg.notify_max_attempts db.jobs next.jobs _
        (Evolves-process cfg post (at job) job db d h.0.0 h.0.1)
        (Evolves-process_all at held next (rw (ids-process cfg post (at job) job db) d) e.1
          (Held-process (at job) job db held e.0 h.1))

  Distinct-settled_of :
      (o : Option ℕ) (held : List Job) → Distinct (ids held) → Distinct (ids (settled_of o held))
  Distinct-settled_of none held d = d
  Distinct-settled_of (some n) held d = Distinct-take n held d

  Held-settled_of :
      (o : Option ℕ) (jobs held : List Job) → Held jobs held → Held jobs (settled_of o held)
  Held-settled_of none jobs held h = h
  Held-settled_of (some n) jobs held h = All-take _ n held h

  pub Evolves-turn :
      (t : Turn) (db : Database)
      → Distinct (ids db.jobs)
      → Evolves cfg.notify_max_attempts db.jobs (turn cfg post t db).jobs
  unfolding turn
  Evolves-turn unclaimed db d = Evolves-refl cfg.notify_max_attempts db.jobs
  Evolves-turn (batch now at o) db d =
      let claim = claim_due now batch_size db.jobs in
      Evolves-join cfg.notify_max_attempts db.jobs claim.0 _
        (Evolves-claim_due cfg.notify_max_attempts now batch_size db.jobs d)
        (Evolves-process_all at (settled_of o claim.1) (record db { jobs = claim.0 })
          (rw (ids-claim_due now batch_size db.jobs) d)
          (Distinct-settled_of o claim.1 (Distinct-claim_due now batch_size db.jobs d))
          (Held-settled_of o claim.0 claim.1 (Holds-claim_due now batch_size db.jobs)))

  pub ids-turn : (t : Turn) (db : Database) → ids (turn cfg post t db).jobs ≡ ids db.jobs
  unfolding turn
  ids-turn unclaimed db = refl
  ids-turn (batch now at o) db =
      let claim = claim_due now batch_size db.jobs in
      ids-process_all at (settled_of o claim.1) (record db { jobs = claim.0 })
      ∙ ids-claim_due now batch_size db.jobs

  pub Evolves-run :
      (turns : List Turn) (db : Database)
      → Distinct (ids db.jobs)
      → Evolves cfg.notify_max_attempts db.jobs (run cfg post turns db).jobs
  unfolding run
  Evolves-run [] db d = Evolves-refl cfg.notify_max_attempts db.jobs
  Evolves-run (t ∷ turns) db d =
      Evolves-join cfg.notify_max_attempts db.jobs (turn cfg post t db).jobs _ (Evolves-turn t db d)
        (Evolves-run turns (turn cfg post t db) (rw (ids-turn t db) d))

InBudget-Edge : (limit : ℕ) (j k : Job) → Edge limit j k → InBudget limit j → InBudget limit k
InBudget-Edge limit j k (claims i p) b = let left : i.attempts < limit = rw p at b in omega arith
InBudget-Edge limit j k (delivers i p) b = rw p at b
InBudget-Edge limit j k (retries i now delay error p l) b = l
InBudget-Edge limit j k (buries i error p) b = rw p at b

InBudget-Course : (limit : ℕ) (j k : Job) → Course limit j k → InBudget limit j → InBudget limit k
InBudget-Course limit j k here b = b
InBudget-Course limit j k (further {k = i} c e) b =
    InBudget-Edge limit i k e (InBudget-Course limit j i c b)

pub InBudget-Evolves :
    (limit : ℕ) (js ks : List Job)
    → Evolves limit js ks
    → All (InBudget limit) js
    → All (InBudget limit) ks
InBudget-Evolves limit [] [] p b = tt
InBudget-Evolves limit [] (k ∷ ks) p b = absurd p
InBudget-Evolves limit (j ∷ js) [] p b = absurd p
InBudget-Evolves limit (j ∷ js) (k ∷ ks) p b =
    (InBudget-Course limit j k p.0 b.0, InBudget-Evolves limit js ks p.1 b.1)

-- No job is tried more often than NOTIFY_MAX_ATTEMPTS: if at first each waiting job has an attempt left
-- and no job has had more than the limit, it is so after whatever turns of the worker, wherever
-- exceptions end them.
pub run-InBudget :
    (cfg : Config) (post : Webhook) (turns : List Turn) (db : Database)
    → Distinct (ids db.jobs)
    → All (InBudget cfg.notify_max_attempts) db.jobs
    → All (InBudget cfg.notify_max_attempts) (run cfg post turns db).jobs
run-InBudget cfg post turns db d b =
    InBudget-Evolves cfg.notify_max_attempts db.jobs (run cfg post turns db).jobs
      (Evolves-run cfg post turns db d) b
