-- ===== src/RateLimit/Window/Retry.antt =====
-- app/services/ratelimit.py: the wait that a refused hit is told, and the keys that a hit leaves alone.
use native.Mathlib.Nat.{div-add-mod, mod-lt}
use flyrank_capstone_widgetp.Base.{
  ℕ, ◌+◌, ◌-◌, ◌*◌, ◌/◌, ◌≤◌, ◌<◌, String, ◌≡◌, ◌≢◌, some, arith, str_eq-ne, le→leb,
}
use flyrank_capstone_widgetp.RateLimit.Window.{FixedWindow, hit, current, retry_after}
use flyrank_capstone_widgetp.RateLimit.Window.Budget.{counters-hit, window-hit}

module _ (hz : ℕ) where
  -- A whole number of seconds, and one more, is longer than what was divided.
  next_second : (x : ℕ) → 0 < hz → x < (x / hz + 1) * hz
  next_second x h = grind (arith, div-add-mod x hz, mod-lt)

  wait_covers :
      (ends now later wait : ℕ)
      → 0 < hz
      → (ends - now) / hz ≤ wait
      → now + (wait + 1) * hz ≤ later
      → ends ≤ later
  wait_covers ends now later wait pos h passed =
      let scaled : ((ends - now) / hz + 1) * hz ≤ (wait + 1) * hz = grind arith in
      omega (arith, next_second (ends - now) pos, scaled)

  wait-eq :
      (key : String) (now wait : ℕ) (w : FixedWindow)
      → (hit hz key now w).1 ≡ some wait
      → wait ≡ retry_after hz w now (current hz w key now)
  unfolding hit
  wait-eq key now wait w h = ground arith

  -- A refused hit is told to wait at least one second; and a hit on that key one second after that
  -- wait, with no hit between, finds the count begun anew.
  pub retry_sound :
      (key : String) (now later wait : ℕ) (w : FixedWindow)
      → 0 < hz
      → (hit hz key now w).1 ≡ some wait
      → now + (wait + 1) * hz ≤ later
      → (1 ≤ wait)
        × (current hz (hit hz key now w).0 key later ≡ record { started = later; count = 0 })
  retry_sound key now later wait w pos h passed =
      let told = wait-eq key now wait w h in
      let c = current hz w key now in
      let over = wait_covers (c.started + w.window * hz) now later wait pos (omega arith) passed in
      (
        omega arith,
        rw (counters-hit hz key now w)
            (rw (window-hit hz key now w, le→leb (c.started + w.window * hz) later over)),
      )

  -- A hit changes the counter of its own key only.
  pub hit_other_keys :
      (key other : String) (now : ℕ) (w : FixedWindow)
      → key ≢ other
      → (hit hz key now w).0.counters other ≡ w.counters other
  unfolding hit
  hit_other_keys key other now w h = rw (str_eq-ne key other h)
