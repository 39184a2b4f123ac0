-- ===== src/Notifications/Stuck.antt =====
-- app/services/notifications.py: what becomes of a job whose worker is stopped half way.
use flyrank_capstone_widgetp.Base.{
  ℕ, Bool, true, false, ◌≡◌, refl, sym, subst, ap, List, [], ◌∷◌, map, arith, All, All-append, ◌++◌,
  ◌==◌, Option, Bool-cases, inl, inr, ◌⊎◌, if◌then◌else◌,
}
use flyrank_capstone_widgetp.Config.{Config}
use flyrank_capstone_widgetp.Schema.{Job, processing}
use flyrank_capstone_widgetp.Database.{Database}
use flyrank_capstone_widgetp.Notifications.Claims.{All-chosen, All-select, All-map}
use flyrank_capstone_widgetp.Notifications.Attempts.{
  Settles, succeeded, orphaned, retried, given_up, process-Settles,
}
use flyrank_capstone_widgetp.Notifications.{
  is_pending, is_due, claimed, has_id, update_where, chosen, is_among, claim_due, process, Webhook,
  Notice,
}

-- A row of the table.
abbrev pub Holds : Job → List Job → Type 0
Holds k [] = ⊥
Holds k (j ∷ jobs) = (j ≡ k) ⊎ Holds k jobs

abbrev pub ids : List Job → List ℕ
ids = map (λ j. j.id)

abbrev pub is_in : ℕ → List ℕ → Bool
is_in n [] = false
is_in n (m ∷ ms) = if m == n then true else is_in n ms

-- The primary key.
abbrev pub Distinct : List ℕ → Type 0
Distinct [] = Unit {0}
Distinct (n ∷ ns) = (is_in n ns ≡ false) × Distinct ns

pub Holds-id : (k : Job) (jobs : List Job) → Holds k jobs → is_in k.id (ids jobs) ≡ true
Holds-id k [] h = absurd h
Holds-id k (j ∷ jobs) (inl e) = ground (arith, ap (λ (x : Job). x.id) e)
Holds-id k (j ∷ jobs) (inr h) = ground (arith, Holds-id k jobs h)

-- Of all rows only the row itself has its number.
pub only_row :
    (k : Job) (jobs : List Job) (P : Job → Type 0)
    → Distinct (ids jobs)
    → Holds k jobs
    → P k
    → ((j : Job) → (j.id == k.id) ≡ false → P j)
    → All P jobs
only_row k [] P d h p others = absurd h
only_row k (j ∷ jobs) P d (inl e) p others = (subst P (sym e) p, rest jobs d.0)
  where
    rest : (js : List Job) → is_in j.id (ids js) ≡ false → All P js
    rest [] n = tt
    rest (i ∷ js) n = (others i (ground (arith, ap (λ (x : Job). x.id) e)), rest js (ground arith))
only_row k (j ∷ jobs) P d (inr h) p others =
    (others j (ground (arith, Holds-id k jobs h)), only_row k jobs P d.1 h p others)

among_of_All :
    (k : Job) (due : List Job) → All (λ j. (j.id == k.id) ≡ false) due → is_among due k ≡ false
among_of_All k [] h = refl
among_of_All k (j ∷ due) h = ground (arith, among_of_All k due h.1)

-- A row that an update passes over stays.
pub kept-update_where :
    (k : Job) (p : Job → Bool) (f : Job → Job) (jobs : List Job)
    → p k ≡ false
    → Holds k jobs
    → Holds k (update_where p f jobs)
kept-update_where k p f [] n h = h
kept-update_where k p f (j ∷ jobs) n (inl e) = inl (rw e (rw n))
kept-update_where k p f (j ∷ jobs) n (inr h) = inr (kept-update_where k p f jobs n h)

ids-update_where :
    (p : Job → Bool) (f : Job → Job) (jobs : List Job)
    → ((j : Job) → (f j).id ≡ j.id)
    → ids (update_where p f jobs) ≡ ids jobs
ids-update_where p f [] e = refl
ids-update_where p f (j ∷ jobs) e = elim (Bool-cases (p j)) [
  | inl t ↦ rw (t, e j, ids-update_where p f jobs e)
  | inr t ↦ rw (t, ids-update_where p f jobs e)
]

-- No claim chooses a row that is not pending.
pub not_among :
    (now limit : ℕ) (jobs : List Job) (k : Job)
    → Distinct (ids jobs)
    → Holds k jobs
    → is_pending k.status ≡ false
    → is_among (chosen now limit jobs) k ≡ false
not_among now limit jobs k d h n = among_of_All k _ (
    All-chosen (λ j. (j.id == k.id) ≡ false) now limit jobs
      (All-select _ (is_due now) jobs (
        only_row k jobs (λ j. is_due now j ≡ true → (j.id == k.id) ≡ false) d h (λ e. ground arith)
          (λ j e _. e))))

claim_due-Holds :
    (now limit : ℕ) (jobs : List Job) (k : Job)
    → Distinct (ids jobs)
    → Holds k jobs
    → is_pending k.status ≡ false
    → Holds k (claim_due now limit jobs).0
unfolding claim_due
claim_due-Holds now limit jobs k d h n =
    kept-update_where k (is_among (chosen now limit jobs)) claimed jobs
      (not_among now limit jobs k d h n) h

batch_not_busy :
    (now limit : ℕ) (jobs : List Job) (k : Job)
    → Distinct (ids jobs)
    → Holds k jobs
    → is_pending k.status ≡ false
    → All (λ j. (k.id == j.id) ≡ false) (claim_due now limit jobs).1
unfolding claim_due
batch_not_busy now limit jobs k d h n =
    All-map (λ j. (k.id == j.id) ≡ false) claimed (chosen now limit jobs)
      (All-chosen (λ j. (k.id == j.id) ≡ false) now limit jobs
        (All-select _ (is_due now) jobs (
          only_row k jobs (λ j. is_due now j ≡ true → (k.id == j.id) ≡ false) d h
            (λ e. ground arith) (λ j e _. ground (arith, e)))))

pub ids-claim_due : (now limit : ℕ) (jobs : List Job) → ids (claim_due now limit jobs).0 ≡ ids jobs
unfolding claim_due
ids-claim_due now limit jobs = ids-update_where _ claimed jobs (λ j. refl)

-- The tables, and the claimed jobs that the worker has not settled yet.
pub record Worker : Type 0 where
  pub db : Database
  pub held : List Job

module _ (cfg : Config) (post : Webhook) where
  id-Settles :
      {now : ℕ} {job : Job} {found : Option Notice} {f : Job → Job}
      → Settles cfg post now job found f
      → (j : Job) → (f j).id ≡ j.id
  id-Settles (succeeded notice e d) j = refl
  id-Settles (orphaned e) j = refl
  id-Settles (retried notice error e d l) j = refl
  id-Settles (given_up notice error e d l) j = refl

  pub ids-process :
      (now : ℕ) (job : Job) (db : Database) → ids (process cfg post now job db).jobs ≡ ids db.jobs
  ids-process now job db =
      let parts = process-Settles cfg post now job db in
      rw parts.2 (ids-update_where (has_id job.id) parts.0 db.jobs (id-Settles parts.1))

  pub process-Holds :
      (now : ℕ) (job : Job) (db : Database) (k : Job)
      → (k.id == job.id) ≡ false
      → Holds k db.jobs
      → Holds k (process cfg post now job db).jobs
  process-Holds now job db k n h =
      let parts = process-Settles cfg post now job db in
      rw parts.2 (kept-update_where k (has_id job.id) parts.0 db.jobs n h)

  -- What can happen: a claim, the settling of the next held job, and a stop (or an exception that
  -- ends a tick), after which the worker holds nothing.
  pub data Step : Worker → Worker → Type 0 where
    claim :
        (w : Worker) (now limit : ℕ)
        → Step w (record {
          db = record w.db { jobs = (claim_due now limit w.db.jobs).0 };
          held = w.held ++ (claim_due now limit w.db.jobs).1;
        })
    settle :
        (db : Database) (now : ℕ) (job : Job) (held : List Job)
        → Step
            (record { db = db; held = job ∷ held })
            (record { db = process cfg post now job db; held = held })
    stop : (w : Worker) → Step w (record w { held = [] })

  pub data Reach (w : Worker) : Worker → Type 0 where
    here : Reach w w
    next : {u v : Worker} → Reach w u → Step u v → Reach w v

  -- A row that is being processed and that the worker does not hold.
  record Lost (k : Job) (w : Worker) : Type 0 where
    distinct : Distinct (ids w.db.jobs)
    there : Holds k w.db.jobs
    busy : k.status ≡ processing
    unheld : All (λ j. (k.id == j.id) ≡ false) w.held

  Step-Lost : {k : Job} {v w : Worker} → Step v w → Lost k v → Lost k w
  Step-Lost {k} (claim w now limit) l = record {
    distinct = rw ids-claim_due l.distinct;
    there = claim_due-Holds now limit w.db.jobs k l.distinct l.there (rw l.busy);
    busy = l.busy;
    unheld =
        All-append _ w.held _ l.unheld
          (batch_not_busy now limit w.db.jobs k l.distinct l.there (rw l.busy));
  }
  Step-Lost {k} (settle db now job held) l = record {
    distinct = rw ids-process l.distinct;
    there = process-Holds now job db k l.unheld.0 l.there;
    busy = l.busy;
    unheld = l.unheld.1;
  }
  Step-Lost (stop w) l = record {
    distinct = l.distinct;
    there = l.there;
    busy = l.busy;
    unheld = tt;
  }

  Reach-Lost : {k : Job} {v w : Worker} → Reach v w → Lost k v → Lost k w
  Reach-Lost here l = l
  Reach-Lost (next r s) l = Step-Lost s (Reach-Lost r l)

  -- A job that is being processed when the worker stops stays so for ever: whatever is claimed and
  -- settled afterwards, and at whatever instants, its row is never delivered, tried again or marked
  -- dead.
  pub stopped_job_lost :
      (w v : Worker) (k : Job)
      → Distinct (ids w.db.jobs)
      → Holds k w.db.jobs
      → k.status ≡ processing
      → Reach (record w { held = [] }) v
      → Holds k v.db.jobs
  stopped_job_lost w v k d h b r =
      (Reach-Lost r (record { distinct = d; there = h; busy = b; unheld = tt })).there
