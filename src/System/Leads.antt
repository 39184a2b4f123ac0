-- ===== src/System/Leads.antt =====
-- app/services/notifications.py with app/repositories/submissions.py: what becomes of a lead.
use flyrank_capstone_widgetp.Base.{
  ℕ, ◌≤◌, false, ◌≡◌, refl, ◌∙◌, List, [], ◌∷◌, map, arith, All, length, ◌==◌, Bool-cases, inl, inr,
}
use flyrank_capstone_widgetp.Config.{Config}
use flyrank_capstone_widgetp.Schema.{Submission, Job, processing}
use flyrank_capstone_widgetp.Database.{Database}
use flyrank_capstone_widgetp.Database.Consistency.{jobs_for, Served}
use flyrank_capstone_widgetp.Notifications.{Webhook}
use flyrank_capstone_widgetp.Notifications.Stuck.{Holds}
use flyrank_capstone_widgetp.Notifications.Budget.{of_row}
use flyrank_capstone_widgetp.Notifications.Worker.{Turn, turn, run}
use flyrank_capstone_widgetp.Notifications.Progress.{left}
use flyrank_capstone_widgetp.Notifications.Ends.{IsSettled, full_turn, AllDue, run-IsSettled}
use flyrank_capstone_widgetp.System.Rows.{AreRows}
use flyrank_capstone_widgetp.System.Turns.{turn-AreRows, turn_rest}

found_job :
    (n : ℕ) (jobs : List Job)
    → 1 ≤ jobs_for n jobs
    → (j : Job) × Holds j jobs × (j.submission_id ≡ n)
found_job n [] h = absurd (omega arith)
found_job n (j ∷ jobs) h = elim (Bool-cases (j.submission_id == n)) [
  | inl e ↦ (j, inl refl, ground (arith, e))
  | inr e ↦ let (k, held, own) = found_job n jobs (rw e at h) in (k, inr held, own)
]

-- The job of a lead, settled.
abbrev pub IsNotified : List Job → Submission → Type 0
IsNotified jobs s = (j : Job) × Holds j jobs × (j.submission_id ≡ s.id) × IsSettled j

module _ (cfg : Config) (post : Webhook) where
  run-AreRows :
      (turns : List Turn) (db : Database)
      → AreRows cfg.notify_max_attempts db
      → AreRows cfg.notify_max_attempts (run cfg post turns db)
  unfolding run
  run-AreRows [] db v = v
  run-AreRows (t ∷ turns) db v =
      run-AreRows turns (turn cfg post t db) (turn-AreRows cfg post t db v)

  submissions-run :
      (turns : List Turn) (db : Database) → (run cfg post turns db).submissions ≡ db.submissions
  unfolding run
  submissions-run [] db = refl
  submissions-run (t ∷ turns) db =
      submissions-run turns (turn cfg post t db) ∙ rw (turn_rest cfg post t db) refl

  each_lead :
      (jobs : List Job) (rows : List Submission)
      → All IsSettled jobs
      → All (Served jobs) rows
      → All (λ s. s.is_spam ≡ false → IsNotified jobs s) rows
  each_lead jobs [] settled served = tt
  each_lead jobs (s ∷ rows) settled served = (
    (λ lead.
        let one : jobs_for s.id jobs ≡ 1 = rw lead at (served.0) in
        let (j, held, own) = found_job s.id jobs (omega (arith, one)) in
        (j, held, own, of_row IsSettled jobs j settled held)),
    each_lead jobs rows settled served.1,
  )

  -- Every lead comes to an end: in consistent tables with no job half done, as many turns without an
  -- exception as there are attempts left are enough, if at the time of each turn the waits are over,
  -- and then every stored submission that is not spam has its job, delivered or given up.
  pub run-IsNotified :
      (turns : List (ℕ × (Job → ℕ))) (db : Database)
      → AreRows cfg.notify_max_attempts db
      → All (λ j. ¬ (j.status ≡ processing)) db.jobs
      → AllDue cfg post turns db
      → left cfg.notify_max_attempts db.jobs ≤ length turns
      → let after = run cfg post (map full_turn turns) db in
        All (λ s. s.is_spam ≡ false → IsNotified after.jobs s) db.submissions
  run-IsNotified turns db v free due enough =
      let after = run cfg post (map full_turn turns) db in
      let served : All (Served after.jobs) after.submissions =
        (run-AreRows (map full_turn turns) db v).valid.served in
      each_lead after.jobs db.submissions
        (run-IsSettled cfg post turns db v.distinct v.budget free due enough)
        (rw (submissions-run (map full_turn turns) db) at served)
