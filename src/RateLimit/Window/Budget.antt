-- ===== src/RateLimit/Window/Budget.antt =====
-- app/services/ratelimit.py: how many hits on a key a window admits.
use flyrank_capstone_widgetp.Base.{
  ℕ, ◌+◌, ◌-◌, ◌*◌, ◌≤◌, ◌<◌, min, String, ◌≡◌, refl, Bool, true, false, Option, none, some, List,
  [], ◌∷◌, arith, eq_refl, length, count, All, ltb, ◌⊎◌, Option-cases, inl, inr, Bool-cases,
}
use flyrank_capstone_widgetp.RateLimit.Window.{FixedWindow, Counter, hit, hits, current, expired}

-- A hit with no wait is admitted.
abbrev pub admitted : Option ℕ → Bool
admitted none = true
admitted (some wait) = false

abbrev pub counted : Counter → Counter
counted c = record { started = c.started; count = c.count + 1 }

module _ (hz : ℕ) (key : String) where
  pub counters-hit :
      (now : ℕ) (w : FixedWindow)
      → (hit hz key now w).0.counters key ≡ some (counted (current hz w key now))
  unfolding hit
  counters-hit now w = rw (eq_refl key)

  pub verdict-hit :
      (now : ℕ) (w : FixedWindow)
      → admitted (hit hz key now w).1 ≡ ltb (current hz w key now).count w.limit
  unfolding hit
  verdict-hit now w = ground arith

  pub limit-hit : (now : ℕ) (w : FixedWindow) → (hit hz key now w).0.limit ≡ w.limit
  unfolding hit
  limit-hit now w = refl

  pub window-hit : (now : ℕ) (w : FixedWindow) → (hit hz key now w).0.window ≡ w.window
  unfolding hit
  window-hit now w = refl

  current_same :
      (now : ℕ) (w : FixedWindow) (c : Counter)
      → w.counters key ≡ some c
      → now < c.started + w.window * hz
      → current hz w key now ≡ c
  current_same now w c e h = rw e (ground arith)

  -- While the counter's window lasts, hits are admitted up to what is left of the limit.
  pub count-hits_same_window :
      (times : List ℕ) (w : FixedWindow) (c : Counter)
      → w.counters key ≡ some c
      → All (λ t. t < c.started + w.window * hz) times
      → count admitted (hits hz key times w) ≡ min (length times) (w.limit - c.count)
  unfolding hits
  count-hits_same_window [] w c e h = omega arith
  count-hits_same_window (t ∷ times) w c e h =
      let same = current_same t w c e h.0 in
      let rest =
        count-hits_same_window times (hit hz key t w).0 (counted c)
          (rw (counters-hit t w) (rw same)) (rw window-hit h.1) in
      ground (arith, rest, verdict-hit t w, same, limit-hit t w)

  -- From any state, a first hit and more in what is then the key's window: exactly what is left of
  -- the limit is admitted, and the rest refused.
  pub burst :
      (now : ℕ) (times : List ℕ) (w : FixedWindow)
      → All (λ t. t < (current hz w key now).started + w.window * hz) times
      → count admitted (hits hz key (now ∷ times) w)
        ≡ min (length (now ∷ times)) (w.limit - (current hz w key now).count)
  unfolding hits
  burst now times w h =
      let rest =
        count-hits_same_window times (hit hz key now w).0 (counted (current hz w key now))
          (counters-hit now w) (rw window-hit h) in
      ground (arith, rest, verdict-hit now w, limit-hit now w)

  abbrev pub left : ℕ → Option Counter → ℕ
  left limit none = limit
  left limit (some c) = limit + (limit - c.count)

  limit-le-left : (limit : ℕ) (c : Option Counter) → limit ≤ left limit c
  limit-le-left limit none = omega arith
  limit-le-left limit (some c) = omega arith

  left-le : (limit : ℕ) (c : Option Counter) → left limit c ≤ 2 * limit
  left-le limit none = omega arith
  left-le limit (some c) = omega arith

  abbrev pub Within : ℕ → ℕ → List ℕ → Type 0
  Within start span = All (λ t. (start ≤ t) × (t < start + span))

  Within-later :
      (start later span : ℕ) (times : List ℕ)
      → start ≤ later
      → Within start span times
      → All (λ t. t < later + span) times
  Within-later start later span [] h all = tt
  Within-later start later span (t ∷ times) h all =
      (omega arith, Within-later start later span times h all.1)

  hits_after_reset :
      (now start : ℕ) (times : List ℕ) (w : FixedWindow)
      → current hz w key now ≡ record { started = now; count = 0 }
      → Within start (w.window * hz) (now ∷ times)
      → count admitted (hits hz key (now ∷ times) w) ≤ w.limit
  hits_after_reset now start times w e h =
      let all = burst now times w (rw e (Within-later start now (w.window * hz) times h.0.0 h.1)) in
      omega (arith, all)

  -- The counter that a hit works on is begun anew, or is the one that was there.
  current-cases :
      (now : ℕ) (w : FixedWindow)
      → (current hz w key now ≡ record { started = now; count = 0 })
        ⊎ ((c : Counter) × (w.counters key ≡ some c) × (current hz w key now ≡ c))
  current-cases now w = elim (Option-cases (w.counters key)) [
    | inl e ↦ inl (rw e)
    | inr (c, e) ↦ elim (Bool-cases (expired hz w now c)) [
      | inl over ↦ inl (rw e (rw over))
      | inr still ↦ inr (c, e, rw e (rw still))
    ]
  ]

  interval_budget_left :
      (start : ℕ) (times : List ℕ) (w : FixedWindow)
      → Within start (w.window * hz) times
      → count admitted (hits hz key times w) ≤ left w.limit (w.counters key)
  unfolding hits
  interval_budget_left start [] w h = omega arith
  interval_budget_left start (now ∷ times) w h = elim (current-cases now w) [
    | inl e ↦
        omega
          (arith, hits_after_reset now start times w e h, limit-le-left w.limit (w.counters key))
    | inr (c, e, same) ↦
        let rest = interval_budget_left start times (hit hz key now w).0 (rw window-hit h.1) in
        let after : (hit hz key now w).0.counters key ≡ some (counted c) =
          rw (counters-hit now w) (rw same) in
        let rest' = rw (after, limit-hit now w) at rest in
        rw e (ground (arith, rest', verdict-hit now w, same))
  ]

  -- Hits at instants that all lie in one stretch as long as the window: at most twice the limit is
  -- admitted, whatever the counters were before.
  pub interval_budget :
      (start : ℕ) (times : List ℕ) (w : FixedWindow)
      → Within start (w.window * hz) times
      → count admitted (hits hz key times w) ≤ 2 * w.limit
  interval_budget start times w h =
      omega (arith, interval_budget_left start times w h, left-le w.limit (w.counters key))
