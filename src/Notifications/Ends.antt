-- ===== src/Notifications/Ends.antt =====
-- app/services/notifications.py: every job comes to an end.
use flyrank_capstone_widgetp.Base.{
  ℕ, ◌≤◌, true, ◌≡◌, refl, ◌⊎◌, none, List, [], ◌∷◌, map, arith, All, length, inl, inr,
}
use flyrank_capstone_widgetp.Config.{Config}
use flyrank_capstone_widgetp.Schema.{Job, Status, pending, processing, delivered, dead}
use flyrank_capstone_widgetp.Database.{Database}
use flyrank_capstone_widgetp.Notifications.{
  is_due, claim_due, Webhook, process_all, batch_size, tick,
}
use flyrank_capstone_widgetp.Notifications.Stuck.{Holds, Distinct, ids, ids-claim_due}
use flyrank_capstone_widgetp.Notifications.Budget.{InBudget, of_row}
use flyrank_capstone_widgetp.Notifications.Batches.{Distinct-claim_due, Holds-claim_due}
use flyrank_capstone_widgetp.Notifications.Worker.{Turn, batch, turn, run}
use flyrank_capstone_widgetp.Notifications.Runs.{
  Evolves-process_all, Evolves-turn, InBudget-Evolves, ids-turn,
}
use flyrank_capstone_widgetp.Notifications.Settled.{tick_settles}
use flyrank_capstone_widgetp.Notifications.Progress.{left, left-Evolves, left-claim_due}

-- Delivered, or given up.
abbrev pub IsSettled : Job → Type 0
IsSettled j = (j.status ≡ delivered) ⊎ (j.status ≡ dead)

-- A turn that no exception ends: when it claims, and when it settles each job.
abbrev pub full_turn : ℕ × (Job → ℕ) → Turn
full_turn t = batch t.0 t.1 none

some_waits :
    (jobs : List Job)
    → ((k : Job) × Holds k jobs × (k.status ≡ pending)) ⊎ All (λ j. ¬ (j.status ≡ pending)) jobs
some_waits [] = inr tt
some_waits (j ∷ jobs) = elim (some_waits jobs) [
  | inl (k, h, p) ↦ inl (k, inr h, p)
  | inr none_waits ↦ first j.status refl none_waits
]
  where
    first :
        (s : Status)
        → j.status ≡ s
        → All (λ j. ¬ (j.status ≡ pending)) jobs
        → ((k : Job) × Holds k (j ∷ jobs) × (k.status ≡ pending))
          ⊎ All (λ j. ¬ (j.status ≡ pending)) (j ∷ jobs)
    first pending e h = inl (j, inl refl, e)
    first processing e h = inr ((λ p. cc), h)
    first delivered e h = inr ((λ p. cc), h)
    first dead e h = inr ((λ p. cc), h)

settled_status : (s : Status) → ¬ (s ≡ pending) → ¬ (s ≡ processing) → (s ≡ delivered) ⊎ (s ≡ dead)
settled_status pending n m = absurd (n refl)
settled_status processing n m = absurd (m refl)
settled_status delivered n m = inl refl
settled_status dead n m = inr refl

neither_waits :
    (jobs : List Job)
    → All (λ j. ¬ (j.status ≡ pending)) jobs
    → All (λ j. ¬ (j.status ≡ processing)) jobs
    → All IsSettled jobs
neither_waits [] n m = tt
neither_waits (j ∷ jobs) n m = (settled_status j.status n.0 m.0, neither_waits jobs n.1 m.1)

left_settled : (limit : ℕ) (jobs : List Job) → All IsSettled jobs → left limit jobs ≡ 0
left_settled limit [] s = refl
left_settled limit (j ∷ jobs) (inl e, s) = rw e (omega (arith, left_settled limit jobs s))
left_settled limit (j ∷ jobs) (inr e, s) = rw e (omega (arith, left_settled limit jobs s))

-- A row that waits has an attempt left.
left_waiting :
    (limit : ℕ) (k : Job) (jobs : List Job)
    → All (InBudget limit) jobs
    → Holds k jobs
    → k.status ≡ pending
    → 1 ≤ left limit jobs
left_waiting limit k [] b h p = absurd h
left_waiting limit k (j ∷ jobs) b (inl same) p =
    let waits : j.status ≡ pending = rw same p in
    let attempt = rw waits at (b.0) in rw waits (omega (arith, attempt))
left_waiting limit k (j ∷ jobs) b (inr h) p = omega (arith, left_waiting limit k jobs b.1 h p)

module _ (cfg : Config) (post : Webhook) where
  -- At the time of each turn the wait of every row that waits is over.
  abbrev pub AllDue : List (ℕ × (Job → ℕ)) → Database → Type 0
  AllDue [] db = Unit {0}
  AllDue (t ∷ turns) db =
      All (λ j. j.status ≡ pending → j.next_attempt_at ≤ t.0) db.jobs
      × AllDue turns (turn cfg post (full_turn t) db)

  left_turn :
      (t : ℕ × (Job → ℕ)) (db : Database)
      → Distinct (ids db.jobs)
      → left cfg.notify_max_attempts (turn cfg post (full_turn t) db).jobs
        ≤ left cfg.notify_max_attempts (claim_due t.0 batch_size db.jobs).0
  unfolding turn process_all
  left_turn t db d =
      let claim = claim_due t.0 batch_size db.jobs in
      left-Evolves cfg.notify_max_attempts claim.0 _ (
        Evolves-process_all cfg post t.1 claim.1 (record db { jobs = claim.0 })
          (rw (ids-claim_due t.0 batch_size db.jobs) d)
          (Distinct-claim_due t.0 batch_size db.jobs d) (Holds-claim_due t.0 batch_size db.jobs))

  turn-processing :
      (t : ℕ × (Job → ℕ)) (db : Database)
      → All (λ j. ¬ (j.status ≡ processing)) db.jobs
      → All (λ j. ¬ (j.status ≡ processing)) (turn cfg post (full_turn t) db).jobs
  unfolding turn tick
  turn-processing t db m = tick_settles cfg post t.0 t.1 db m

  -- Every job comes to an end: if at first no row is being processed, and each has an attempt left while
  -- it waits, then as many turns without an exception as there are attempts left in the table are
  -- enough, if at the time of each turn the waits are over: afterwards every row is delivered or dead,
  -- whatever the webhook answers.
  pub run-IsSettled :
      (turns : List (ℕ × (Job → ℕ))) (db : Database)
      → Distinct (ids db.jobs)
      → All (InBudget cfg.notify_max_attempts) db.jobs
      → All (λ j. ¬ (j.status ≡ processing)) db.jobs
      → AllDue turns db
      → left cfg.notify_max_attempts db.jobs ≤ length turns
      → All IsSettled (run cfg post (map full_turn turns) db).jobs
  unfolding run
  run-IsSettled [] db d b m due enough = elim (some_waits db.jobs) [
    | inr n ↦ neither_waits db.jobs n m
    | inl (k, h, p) ↦
        absurd (omega (arith, left_waiting cfg.notify_max_attempts k db.jobs b h p, enough))
  ]
  run-IsSettled (t ∷ turns) db d b m due enough =
      let limit = cfg.notify_max_attempts in
      let next = turn cfg post (full_turn t) db in
      let fewer : left limit next.jobs ≤ length turns = elim (some_waits db.jobs) [
        | inr n ↦ omega (
          arith,
          left_settled limit db.jobs (neither_waits db.jobs n m),
          left-Evolves limit db.jobs next.jobs (Evolves-turn cfg post (full_turn t) db d),
        )
        | inl (k, h, p) ↦
            let over : k.next_attempt_at ≤ t.0 =
              of_row (λ j. j.status ≡ pending → j.next_attempt_at ≤ t.0) db.jobs k due.0 h p in
            let ready : is_due t.0 k ≡ true = rw p (ground arith) in
            omega
              (arith, enough, left_turn t db d, left-claim_due limit t.0 9 k db.jobs d b h ready)
      ] in
      run-IsSettled turns next (rw (ids-turn cfg post (full_turn t) db) d)
        (InBudget-Evolves limit db.jobs next.jobs (Evolves-turn cfg post (full_turn t) db d) b)
        (turn-processing t db m) due.1 fewer
