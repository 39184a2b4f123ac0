-- ===== src/RateLimit/Tests.antt =====
-- app/services/ratelimit.py: runs, and the theorems at inputs that meet their hypotheses.
use flyrank_capstone_widgetp.Base.{
  ℕ, String, ◌≡◌, refl, ◌≤◌, none, some, [], ◌∷◌, arith, count, ◌≢◌, eq_iff,
}
use flyrank_capstone_widgetp.RateLimit.Window.{FixedWindow, hit, hits, current}
use flyrank_capstone_widgetp.RateLimit.Window.Budget.{admitted, burst, interval_budget}
use flyrank_capstone_widgetp.RateLimit.Window.Retry.{retry_sound}
use flyrank_capstone_widgetp.RateLimit.{new_limiter, check}
use flyrank_capstone_widgetp.RateLimit.Unswept.{
  Request, verdicts, check_unswept, verdicts-check_unswept,
}

-- Two hits in ten seconds, on a clock of ten ticks a second.
abbrev small : FixedWindow
small = record { limit = 2; window = 10; counters = λ _. none }

three_then_reset : hits 10 "a" (0 ∷ 5 ∷ 8 ∷ 100 ∷ []) small ≡ none ∷ none ∷ some 9 ∷ none ∷ []
unfolding hits hit
three_then_reset = refl

burst_example : count admitted (hits 10 "a" (0 ∷ 5 ∷ 8 ∷ []) small) ≡ 2
burst_example = burst 10 "a" 0 (5 ∷ 8 ∷ []) small (omega arith)

interval_budget_example : count admitted (hits 10 "a" (95 ∷ 99 ∷ 100 ∷ 101 ∷ []) small) ≤ 4
interval_budget_example = interval_budget 10 "a" 95 (95 ∷ 99 ∷ 100 ∷ 101 ∷ []) small (omega arith)

abbrev spent : FixedWindow
spent = record { limit = 0; window = 10; counters = λ _. none }

spent_waits : (hit 10 "a" 3 spent).1 ≡ some 10
unfolding hit
spent_waits = refl

retry_sound_example :
    (1 ≤ 10) × (current 10 (hit 10 "a" 3 spent).0 "a" 113 ≡ record { started = 113; count = 0 })
retry_sound_example = retry_sound 10 "a" 3 113 10 spent (omega arith) spent_waits (omega arith)

a_not_b : ◌≢◌ {A = String} "a" "b"
a_not_b = ground (arith, eq_iff "a" "b")

abbrev at : ℕ → Request
at t = record {
  readings = record { sweep_ip = t; sweep_widget = t; hit_ip = t; hit_widget = t };
  address = "10.0.0.1";
  widget_id = "wgt";
}

verdicts-check_unswept_example :
    verdicts 1 (check 1) (at 1 ∷ at 2 ∷ []) (new_limiter 1 60 5 60)
    ≡ verdicts 1 (check_unswept 1) (at 1 ∷ at 2 ∷ []) (new_limiter 1 60 5 60)
verdicts-check_unswept_example =
    verdicts-check_unswept 1 1 60 5 60 0 (at 1 ∷ at 2 ∷ []) (omega arith)
