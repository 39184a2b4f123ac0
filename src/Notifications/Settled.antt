-- ===== src/Notifications/Settled.antt =====
-- app/services/notifications.py: a tick leaves no job half done.
use flyrank_capstone_widgetp.Base.{
  ℕ, true, ◌≡◌, Option, List, [], ◌∷◌, map, arith, All, Bool-cases, inl, inr, if◌then◌else◌,
}
use flyrank_capstone_widgetp.Config.{Config}
use flyrank_capstone_widgetp.Schema.{Job, processing}
use flyrank_capstone_widgetp.Database.{Database}
use flyrank_capstone_widgetp.Notifications.{
  claimed, has_id, chosen, is_among, claim_due, Webhook, Notice, process, process_all, batch_size,
  tick,
}
use flyrank_capstone_widgetp.Notifications.Claims.{All-map}
use flyrank_capstone_widgetp.Notifications.Attempts.{
  Settles, succeeded, orphaned, retried, given_up, process-Settles,
}
use flyrank_capstone_widgetp.Notifications.Stuck.{ids, is_in}
use flyrank_capstone_widgetp.Notifications.Budget.{each_row, of_row}
use flyrank_capstone_widgetp.Notifications.Batches.{among_id, ids-claimed}

-- A row that is being processed is one of the claimed jobs that are left.
abbrev Accounted : List Job → List Job → Type 0
Accounted held jobs = All (λ j. j.status ≡ processing → is_in j.id (ids held) ≡ true) jobs

Accounted-claim_due :
    (now limit : ℕ) (jobs : List Job)
    → All (λ j. ¬ (j.status ≡ processing)) jobs
    → Accounted (claim_due now limit jobs).1 (claim_due now limit jobs).0
unfolding claim_due
Accounted-claim_due now limit jobs free =
    let due = chosen now limit jobs in
    let Claimed = λ (j : Job). j.status ≡ processing → is_in j.id (ids (map claimed due)) ≡ true in
    All-map Claimed (λ j. if is_among due j then claimed j else j) jobs
      (each_row _ jobs (λ j h. elim (Bool-cases (is_among due j)) [
        | inl e ↦ rw e (λ b. rw (ids-claimed due, ← among_id j due) e)
        | inr e ↦ rw e (λ b. absurd (of_row (λ k. ¬ (k.status ≡ processing)) jobs j free h b))
      ]))

module _ (cfg : Config) (post : Webhook) where
  settled_not_busy :
      {now : ℕ} {job : Job} {found : Option Notice} {f : Job → Job}
      → Settles cfg post now job found f
      → (j : Job) → ¬ ((f j).status ≡ processing)
  settled_not_busy (succeeded notice e d) j h = cc
  settled_not_busy (orphaned e) j h = cc
  settled_not_busy (retried notice error e d l) j h = cc
  settled_not_busy (given_up notice error e d l) j h = cc

  Accounted-process :
      (now : ℕ) (job : Job) (held : List Job) (db : Database)
      → Accounted (job ∷ held) db.jobs
      → Accounted held (process cfg post now job db).jobs
  Accounted-process now job held db a =
      let parts = process-Settles cfg post now job db in
      let f = parts.0 in
      rw parts.2 (
        All-map (λ j. j.status ≡ processing → is_in j.id (ids held) ≡ true)
          (λ j. if has_id job.id j then f j else j) db.jobs
          (each_row _ db.jobs (λ j h. elim (Bool-cases (has_id job.id j)) [
            | inl e ↦ rw e (λ b. absurd (settled_not_busy parts.1 j b))
            | inr e ↦ rw e (λ b.
                let known : is_in j.id (ids (job ∷ held)) ≡ true =
                  of_row (λ k. k.status ≡ processing → is_in k.id (ids (job ∷ held)) ≡ true) db.jobs
                    j a h b in
                ground arith)
          ])))

  Accounted-process_all :
      (at : Job → ℕ) (held : List Job) (db : Database)
      → Accounted held db.jobs
      → Accounted [] (process_all cfg post at held db).jobs
  unfolding process_all
  Accounted-process_all at [] db a = a
  Accounted-process_all at (job ∷ held) db a =
      Accounted-process_all at held (process cfg post (at job) job db)
        (Accounted-process (at job) job held db a)

  none_left : (jobs : List Job) → Accounted [] jobs → All (λ j. ¬ (j.status ≡ processing)) jobs
  none_left [] a = tt
  none_left (j ∷ jobs) a = ((λ b. cc (a.0 b)), none_left jobs a.1)

  -- A tick that no exception ends settles all that it claims: if no row was being processed before,
  -- none is afterwards, whatever the webhook answers and however long it takes.
  pub tick_settles :
      (now : ℕ) (at : Job → ℕ) (db : Database)
      → All (λ j. ¬ (j.status ≡ processing)) db.jobs
      → All (λ j. ¬ (j.status ≡ processing)) (tick cfg post now at db).jobs
  unfolding tick process_all
  tick_settles now at db free =
      let claim = claim_due now batch_size db.jobs in
      none_left _ (
        Accounted-process_all at claim.1 (record db { jobs = claim.0 })
          (Accounted-claim_due now batch_size db.jobs free))
