-- ===== src/RateLimit/Unswept.antt =====
-- app/services/ratelimit.py: the limiter against one that never sweeps.
use flyrank_capstone_widgetp.Base.{
  ℕ, ◌+◌, ◌≤◌, String, ◌≡◌, refl, Option, none, some, List, [], ◌∷◌, arith, leb, Bool-cases, inl,
  inr,
}
use flyrank_capstone_widgetp.RateLimit.Window.{FixedWindow, hit}
use flyrank_capstone_widgetp.RateLimit.Window.Sweep.{Agree, sweep-Agree, hit-Agree}
use flyrank_capstone_widgetp.RateLimit.{
  RateLimiter, Readings, Scope, new_limiter, maybe_sweep, over, check_widget, ip_key, check,
}

pub record Request : Type 0 where
  pub readings : Readings
  pub address : String
  pub widget_id : String

module _ (hz : ℕ) where
  -- The limiter as its two limits alone describe it: nothing is ever dropped.
  pub check_unswept : Readings → String → String → RateLimiter → RateLimiter × Option (Scope × ℕ)
  unfolding check_widget
  check_unswept r address widget_id l =
      let (by_ip, retry) = hit hz (ip_key hz address) r.hit_ip l.by_ip in
      check_widget hz r widget_id (record l { by_ip = by_ip }) (over hz retry)

  abbrev pub verdicts :
      (Readings → String → String → RateLimiter → RateLimiter × Option (Scope × ℕ))
      → List Request
      → RateLimiter
      → List (Option (Scope × ℕ))
  verdicts one [] l = []
  verdicts one (q ∷ qs) l =
      let (l', v) = one q.readings q.address q.widget_id l in v ∷ verdicts one qs l'

  -- The clock does not run backwards, within a request and from one to the next.
  abbrev pub InOrder : ℕ → List Request → Type 0
  InOrder start [] = Unit {0}
  InOrder start (q ∷ qs) =
      (start ≤ q.readings.sweep_ip)
      × (q.readings.sweep_ip ≤ q.readings.sweep_widget)
      × (q.readings.sweep_widget ≤ q.readings.hit_ip)
      × (q.readings.hit_ip ≤ q.readings.hit_widget)
      × InOrder q.readings.hit_widget qs

  record Similar (start : ℕ) (k l : RateLimiter) : Type 0 where
    by_ip : Agree hz start k.by_ip l.by_ip
    by_widget : Agree hz start k.by_widget l.by_widget

  Agree-later :
      {start later : ℕ} {v w : FixedWindow}
      → start ≤ later
      → Agree hz start v w
      → Agree hz later v w
  Agree-later h a = record {
    limit = a.limit;
    window = a.window;
    counts = λ key now after. a.counts key now (omega arith);
  }

  Agree-refl : (start : ℕ) (w : FixedWindow) → Agree hz start w w
  Agree-refl start w = record { limit = refl; window = refl; counts = λ key now h. refl }

  maybe_sweep-Similar :
      (r : Readings) (k l : RateLimiter) (start : ℕ)
      → start ≤ r.sweep_ip
      → r.sweep_ip ≤ r.sweep_widget
      → r.sweep_widget ≤ r.hit_ip
      → Similar start k l
      → Similar r.hit_ip (maybe_sweep hz r k) l
  unfolding maybe_sweep
  maybe_sweep-Similar r k l start h₁ h₂ h₃ s =
      elim (Bool-cases (leb 500 (k.requests_since_sweep + 1))) [
        | inl e ↦ rw e (record {
          by_ip =
              sweep-Agree hz r.sweep_ip r.hit_ip k.by_ip l.by_ip (omega arith)
                (Agree-later (omega arith) s.by_ip);
          by_widget =
              sweep-Agree hz r.sweep_widget r.hit_ip k.by_widget l.by_widget (omega arith)
                (Agree-later (omega arith) s.by_widget);
        })
        | inr e ↦ rw e (record {
          by_ip = Agree-later (omega arith) s.by_ip;
          by_widget = Agree-later (omega arith) s.by_widget;
        })
      ]

  check_widget-Similar :
      (r : Readings) (widget_id : String) (k l : RateLimiter) (retry : Option ℕ)
      → r.hit_ip ≤ r.hit_widget
      → Similar r.hit_ip k l
      → ((check_widget hz r widget_id k retry).1 ≡ (check_widget hz r widget_id l retry).1)
        × Similar r.hit_widget
            (check_widget hz r widget_id k retry).0
            (check_widget hz r widget_id l retry).0
  unfolding check_widget
  check_widget-Similar r widget_id k l (some wait) h s =
      (refl, record { by_ip = Agree-later h s.by_ip; by_widget = Agree-later h s.by_widget })
  check_widget-Similar r widget_id k l none h s =
      let both =
        hit-Agree hz widget_id r.hit_widget r.hit_ip k.by_widget l.by_widget h s.by_widget in
      (rw (both.0, check_widget), record { by_ip = Agree-later h s.by_ip; by_widget = both.1 })

  check-Similar :
      (q : Request) (k l : RateLimiter) (start : ℕ) (qs : List Request)
      → InOrder start (q ∷ qs)
      → Similar start k l
      → ((check hz q.readings q.address q.widget_id k).1
          ≡ (check_unswept q.readings q.address q.widget_id l).1)
        × Similar q.readings.hit_widget
            (check hz q.readings q.address q.widget_id k).0
            (check_unswept q.readings q.address q.widget_id l).0
  unfolding check check_unswept
  check-Similar q k l start qs h s =
      let r = q.readings in
      let swept = maybe_sweep-Similar r k l start h.0 h.1 h.2 s in
      let both =
        hit-Agree hz (ip_key hz q.address) r.hit_ip r.hit_ip (maybe_sweep hz r k).by_ip l.by_ip
          (omega arith) swept.by_ip in
      rw both.0 (
        check_widget-Similar r q.widget_id
          (record (maybe_sweep hz r k) {
            by_ip = (hit hz (ip_key hz q.address) r.hit_ip (maybe_sweep hz r k).by_ip).0;
          })
          (record l { by_ip = (hit hz (ip_key hz q.address) r.hit_ip l.by_ip).0 }) _ h.3
          (record { by_ip = both.1; by_widget = swept.by_widget }))

  verdicts-Similar :
      (requests : List Request) (k l : RateLimiter) (start : ℕ)
      → InOrder start requests
      → Similar start k l
      → verdicts (check hz) requests k ≡ verdicts check_unswept requests l
  verdicts-Similar [] k l start h s = refl
  verdicts-Similar (q ∷ qs) k l start h s =
      let one = check-Similar q k l start qs h s in
      rw (one.0, verdicts-Similar qs _ _ q.readings.hit_widget h.4 one.1)

  -- Over any series of requests in order of the clock, the limiter that sweeps gives every request
  -- the verdict of the one that never does.
  pub verdicts-check_unswept :
      (ip_limit ip_window widget_limit widget_window start : ℕ) (requests : List Request)
      → InOrder start requests
      → let l = new_limiter ip_limit ip_window widget_limit widget_window in
        verdicts (check hz) requests l ≡ verdicts check_unswept requests l
  verdicts-check_unswept a b c d start requests h =
      verdicts-Similar requests (new_limiter a b c d) (new_limiter a b c d) start h
        (record { by_ip = Agree-refl start _; by_widget = Agree-refl start _ })
