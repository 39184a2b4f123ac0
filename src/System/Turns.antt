-- ===== src/System/Turns.antt =====
-- app/services/notifications.py: a turn of the worker keeps the tables consistent.
use flyrank_capstone_widgetp.Base.{ℕ, ◌<◌, ◌≡◌, refl, ◌∙◌, List, [], ◌∷◌, All}
use flyrank_capstone_widgetp.Config.{Config}
use flyrank_capstone_widgetp.Schema.{Submission, Job}
use flyrank_capstone_widgetp.Database.{Database}
use flyrank_capstone_widgetp.Database.Consistency.{jobs_for, Served}
use flyrank_capstone_widgetp.Notifications.{Webhook, claim_due, process, process_all, batch_size}
use flyrank_capstone_widgetp.Notifications.Lifecycle.{
  Edge, claims, delivers, retries, buries, Course, here, further, Evolves,
}
use flyrank_capstone_widgetp.Notifications.Worker.{Turn, unclaimed, batch, settled_of, turn}
use flyrank_capstone_widgetp.Notifications.Runs.{Evolves-turn, ids-turn, InBudget-Evolves}
use flyrank_capstone_widgetp.System.Rows.{AreRows}

-- A job keeps its number and its submission all its life.
same_Edge :
    (limit : ℕ) (j k : Job) → Edge limit j k → (k.id ≡ j.id) × (k.submission_id ≡ j.submission_id)
same_Edge limit j k (claims i p) = (refl, refl)
same_Edge limit j k (delivers i p) = (refl, refl)
same_Edge limit j k (retries i now delay error p l) = (refl, refl)
same_Edge limit j k (buries i error p) = (refl, refl)

same_Course :
    (limit : ℕ) (j k : Job) → Course limit j k → (k.id ≡ j.id) × (k.submission_id ≡ j.submission_id)
same_Course limit j k here = (refl, refl)
same_Course limit j k (further {k = i} c e) = (
  (same_Edge limit i k e).0 ∙ (same_Course limit j i c).0,
  (same_Edge limit i k e).1 ∙ (same_Course limit j i c).1,
)

jobs_for-Evolves :
    (limit n : ℕ) (js ks : List Job) → Evolves limit js ks → jobs_for n ks ≡ jobs_for n js
jobs_for-Evolves limit n [] [] p = refl
jobs_for-Evolves limit n [] (k ∷ ks) p = absurd p
jobs_for-Evolves limit n (j ∷ js) [] p = absurd p
jobs_for-Evolves limit n (j ∷ js) (k ∷ ks) p =
    rw ((same_Course limit j k p.0).1, jobs_for-Evolves limit n js ks p.1) refl

owned_kept :
    (limit n : ℕ) (js ks : List Job)
    → Evolves limit js ks
    → All (λ j. j.submission_id < n) js
    → All (λ j. j.submission_id < n) ks
owned_kept limit n [] [] p h = tt
owned_kept limit n [] (k ∷ ks) p h = absurd p
owned_kept limit n (j ∷ js) [] p h = absurd p
owned_kept limit n (j ∷ js) (k ∷ ks) p h =
    (rw (same_Course limit j k p.0).1 h.0, owned_kept limit n js ks p.1 h.1)

below_kept :
    (limit n : ℕ) (js ks : List Job)
    → Evolves limit js ks
    → All (λ j. j.id < n) js
    → All (λ j. j.id < n) ks
below_kept limit n [] [] p h = tt
below_kept limit n [] (k ∷ ks) p h = absurd p
below_kept limit n (j ∷ js) [] p h = absurd p
below_kept limit n (j ∷ js) (k ∷ ks) p h =
    (rw (same_Course limit j k p.0).0 h.0, below_kept limit n js ks p.1 h.1)

Served-Evolves :
    (limit : ℕ) (js ks : List Job) (rows : List Submission)
    → Evolves limit js ks
    → All (Served js) rows
    → All (Served ks) rows
Served-Evolves limit js ks [] p h = tt
Served-Evolves limit js ks (r ∷ rows) p h =
    (jobs_for-Evolves limit r.id js ks p ∙ h.0, Served-Evolves limit js ks rows p h.1)

module _ (cfg : Config) (post : Webhook) where
  -- Only the jobs change.
  process_all_rest :
      (at : Job → ℕ) (held : List Job) (db : Database)
      → process_all cfg post at held db
        ≡ record db { jobs = (process_all cfg post at held db).jobs }
  unfolding process_all process
  process_all_rest at [] db = refl
  process_all_rest at (job ∷ held) db = process_all_rest at held (process cfg post (at job) job db)

  pub turn_rest :
      (t : Turn) (db : Database)
      → turn cfg post t db ≡ record db { jobs = (turn cfg post t db).jobs }
  unfolding turn
  turn_rest unclaimed db = refl
  turn_rest (batch now at o) db =
      let claim = claim_due now batch_size db.jobs in
      process_all_rest at (settled_of o claim.1) (record db { jobs = claim.0 })

  pub turn-AreRows :
      (t : Turn) (db : Database)
      → AreRows cfg.notify_max_attempts db
      → AreRows cfg.notify_max_attempts (turn cfg post t db)
  turn-AreRows t db v =
      let limit = cfg.notify_max_attempts in
      let after = (turn cfg post t db).jobs in
      let moved : Evolves limit db.jobs after = Evolves-turn cfg post t db v.distinct in
      rw (turn_rest t db) (record {
        valid = record {
          keyed = v.valid.keyed;
          fresh = v.valid.fresh;
          served = Served-Evolves limit db.jobs after db.submissions moved v.valid.served;
          owned = owned_kept limit db.next_submission db.jobs after moved v.valid.owned;
        };
        single = v.single;
        distinct = rw (ids-turn cfg post t db) v.distinct;
        below = below_kept limit db.next_job db.jobs after moved v.below;
        budget = InBudget-Evolves limit db.jobs after moved v.budget;
      })
