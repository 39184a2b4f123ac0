-- ===== src/Notifications/Lifecycle.antt =====
-- app/services/notifications.py: the life of a job, as the edges between its states, and that the
-- worker takes no others.
use flyrank_capstone_widgetp.Base.{
  ℕ, String, ◌<◌, true, ◌≡◌, refl, Option, List, [], ◌∷◌, map, arith, All, Bool-cases, inl, inr,
  if◌then◌else◌,
}
use flyrank_capstone_widgetp.Config.{Config}
use flyrank_capstone_widgetp.Schema.{Job, Status, pending, processing, delivered, dead}
use flyrank_capstone_widgetp.Database.{Database}
use flyrank_capstone_widgetp.Notifications.{
  is_pending, claimed, has_id, chosen, is_among, claim_due, delivered_row, rescheduled_row,
  dead_row, Webhook, Notice, process,
}
use flyrank_capstone_widgetp.Notifications.Attempts.{
  Settles, succeeded, orphaned, retried, given_up, process-Settles,
}
use flyrank_capstone_widgetp.Notifications.Stuck.{Holds, Distinct, ids, only_row, not_among}
use flyrank_capstone_widgetp.Notifications.Budget.{each_row}

-- What can happen to a row, with so many attempts at most.
pub data Edge (limit : ℕ) : Job → Job → Type 0 where
  claims : (j : Job) → j.status ≡ pending → Edge limit j (claimed j)
  delivers : (j : Job) → j.status ≡ processing → Edge limit j (delivered_row j)
  retries :
      (j : Job) (now delay : ℕ) (error : String)
      → j.status ≡ processing
      → j.attempts < limit
      → Edge limit j (rescheduled_row now delay error j)
  buries : (j : Job) (error : String) → j.status ≡ processing → Edge limit j (dead_row error j)

pub data Course (limit : ℕ) (j : Job) : Job → Type 0 where
  here : Course limit j j
  further : {k l : Job} → Course limit j k → Edge limit k l → Course limit j l

Course-join : {limit : ℕ} {j k l : Job} → Course limit j k → Course limit k l → Course limit j l
Course-join p here = p
Course-join p (further q e) = further (Course-join p q) e

-- Two tables, row by row.
abbrev pub Evolves : ℕ → List Job → List Job → Type 0
Evolves limit [] [] = Unit {0}
Evolves limit (j ∷ js) (k ∷ ks) = Course limit j k × Evolves limit js ks
Evolves limit _ _ = ⊥

pub Evolves-refl : (limit : ℕ) (js : List Job) → Evolves limit js js
Evolves-refl limit [] = tt
Evolves-refl limit (j ∷ js) = (here, Evolves-refl limit js)

pub Evolves-join :
    (limit : ℕ) (is js ks : List Job)
    → Evolves limit is js
    → Evolves limit js ks
    → Evolves limit is ks
Evolves-join limit [] [] ks p q = q
Evolves-join limit [] (j ∷ js) ks p q = absurd p
Evolves-join limit (i ∷ is) [] ks p q = absurd p
Evolves-join limit (i ∷ is) (j ∷ js) [] p q = absurd q
Evolves-join limit (i ∷ is) (j ∷ js) (k ∷ ks) p q =
    (Course-join p.0 q.0, Evolves-join limit is js ks p.1 q.1)

Evolves-map :
    (limit : ℕ) (f : Job → Job) (js : List Job)
    → All (λ j. Course limit j (f j)) js
    → Evolves limit js (map f js)
Evolves-map limit f [] h = tt
Evolves-map limit f (j ∷ js) h = (h.0, Evolves-map limit f js h.1)

pending_status : (s : Status) → is_pending s ≡ true → s ≡ pending
pending_status pending h = refl
pending_status processing h = cc
pending_status delivered h = cc
pending_status dead h = cc

pub Evolves-claim_due :
    (limit now width : ℕ) (jobs : List Job)
    → Distinct (ids jobs)
    → Evolves limit jobs (claim_due now width jobs).0
unfolding claim_due
Evolves-claim_due limit now width jobs d = Evolves-map limit _ jobs (each_row _ jobs row)
  where
    row :
        (j : Job)
        → Holds j jobs
        → Course limit j (if is_among (chosen now width jobs) j then claimed j else j)
    row j h = elim (Bool-cases (is_among (chosen now width jobs) j)) [
      | inr e ↦ rw e here
      | inl e ↦ elim (Bool-cases (is_pending j.status)) [
        | inr n ↦ cc (not_among now width jobs j d h n)
        | inl p ↦ rw e (further here (claims j (pending_status j.status p)))
      ]
    ]

module _ (cfg : Config) (post : Webhook) where
  Edge-Settles :
      {now : ℕ} {job : Job} {found : Option Notice} {f : Job → Job}
      → Settles cfg post now job found f
      → job.status ≡ processing
      → Edge cfg.notify_max_attempts job (f job)
  Edge-Settles {now} {job} (succeeded notice e d) b = delivers job b
  Edge-Settles {now} {job} (orphaned e) b = buries job "submission no longer exists" b
  Edge-Settles {now} {job} (retried notice error e d l) b = retries job now _ error b l
  Edge-Settles {now} {job} (given_up notice error e d l) b = buries job error b

  pub Evolves-process :
      (now : ℕ) (job : Job) (db : Database)
      → Distinct (ids db.jobs)
      → Holds job db.jobs
      → job.status ≡ processing
      → Evolves cfg.notify_max_attempts db.jobs (process cfg post now job db).jobs
  Evolves-process now job db d h b =
      let parts = process-Settles cfg post now job db in
      let f = parts.0 in
      rw parts.2 (
        Evolves-map cfg.notify_max_attempts (λ j. if has_id job.id j then f j else j) db.jobs
          (only_row job db.jobs
            (λ j. Course cfg.notify_max_attempts j (if has_id job.id j then f j else j)) d h
            (let own : has_id job.id job ≡ true = ground arith in
              rw own (further here (Edge-Settles parts.1 b)))
            (λ j e. rw e here)))
