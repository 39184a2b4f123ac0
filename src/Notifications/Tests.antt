-- ===== src/Notifications/Tests.antt =====
-- app/services/notifications.py: the theorems at tables that meet their hypotheses.
use flyrank_capstone_widgetp.Base.{ℕ, ◌≡◌, refl, none, some, List, [], ◌∷◌, map, arith, inl}
use flyrank_capstone_widgetp.Config.{Config, defaults}
use flyrank_capstone_widgetp.Schema.{Job, Status, pending, processing, dead}
use flyrank_capstone_widgetp.Samples.{waiting, busy, tables_with_lead}
use flyrank_capstone_widgetp.Notifications.{
  Webhook, claim_due, payload_for, process, process_all, deliver, handle_failure, reschedule,
  mark_dead,
}
use flyrank_capstone_widgetp.Notifications.Worker.{Turn, batch, turn, run, counts_by_status}
use flyrank_capstone_widgetp.Notifications.Ends.{full_turn, AllDue}
use flyrank_capstone_widgetp.Notifications.Stuck.{
  Worker, claim, here, next, Holds, stopped_job_lost,
}

abbrev refusing : Webhook
refusing now notice = some "HTTPStatusError: 503"

abbrev interrupted : Worker
interrupted = record { db = record tables_with_lead { jobs = busy ∷ [] }; held = busy ∷ [] }

abbrev restarted : Worker
restarted = record interrupted { held = [] }

stopped_job_lost_example : Holds busy (claim_due 900 10 (busy ∷ [])).0
stopped_job_lost_example =
    stopped_job_lost defaults refusing interrupted _ busy (refl, tt) (inl refl) refl
      (next here (claim restarted 900 10))

abbrev with_webhook : Config
with_webhook = record defaults { webhook_url = "https://crm.example/leads" }

-- A turn that an exception ends before it settles anything, and a full one.
abbrev two_turns : List Turn
two_turns = batch 0 (λ _. 1) (some 0) ∷ batch 9 (λ _. 9) none ∷ []

-- Four turns, a hundred seconds apart.
abbrev four_turns : List (ℕ × (Job → ℕ))
four_turns = (0, λ _. 1) ∷ (100, λ _. 101) ∷ (200, λ _. 201) ∷ (300, λ _. 301) ∷ []

four-AllDue : AllDue with_webhook refusing four_turns tables_with_lead
unfolding turn claim_due process_all process payload_for deliver handle_failure reschedule mark_dead
four-AllDue = (
  ((λ p. omega arith), tt),
  (((λ p. omega arith), tt), (((λ p. omega arith), tt), (((λ p. omega arith), tt), tt))),
)

-- A webhook that refuses every time: the job ends dead, after its fourth attempt.
ends_dead :
    map {B = Status × ℕ}
      (λ j. (j.status, j.attempts))
      (run with_webhook refusing (map full_turn four_turns) tables_with_lead).jobs
    ≡ (dead, 4) ∷ []
unfolding run turn claim_due process_all process payload_for deliver handle_failure reschedule
    mark_dead
ends_dead = refl

counted : counts_by_status (waiting ∷ busy ∷ busy ∷ []) ≡ (pending, 1) ∷ (processing, 2) ∷ []
unfolding counts_by_status
counted = refl
