-- ===== src/RateLimit/Window/Sweep.antt =====
-- app/services/ratelimit.py: a sweep forgets no counter that still matters.
use flyrank_capstone_widgetp.Base.{
  ℕ, ◌≤◌, String, ◌≡◌, refl, ◌∙◌, true, false, none, arith, Option-cases, Bool-cases, inl, inr,
  str_eq, ◌⊎◌,
}
use flyrank_capstone_widgetp.RateLimit.Window.{FixedWindow, hit, sweep, current}

-- Two windows that no hit at `start` or later can tell apart.
pub record Agree (hz start : ℕ) (v w : FixedWindow) : Type 0 where
  pub limit : v.limit ≡ w.limit
  pub window : v.window ≡ w.window
  pub counts : (key : String) (now : ℕ) → start ≤ now → current hz v key now ≡ current hz w key now

module _ (hz : ℕ) where
  current-sweep :
      (clock now : ℕ) (w : FixedWindow) (key : String)
      → clock ≤ now
      → current hz (sweep hz none clock w) key now ≡ current hz w key now
  unfolding sweep
  current-sweep clock now w key h = elim (Option-cases (w.counters key)) [
    | inl e ↦ rw e
    | inr (c, e) ↦ rw e (ground arith)
  ]

  pub sweep-Agree :
      (clock start : ℕ) (v w : FixedWindow)
      → clock ≤ start
      → Agree hz start v w
      → Agree hz start (sweep hz none clock v) w
  sweep-Agree clock start v w h a = record {
    limit = unfold sweep in a.limit;
    window = unfold sweep in a.window;
    counts = λ key now later. current-sweep clock now v key (omega arith) ∙ a.counts key now later;
  }

  verdict-eq :
      (key : String) (now : ℕ) (v w : FixedWindow)
      → v.limit ≡ w.limit
      → v.window ≡ w.window
      → current hz v key now ≡ current hz w key now
      → (hit hz key now v).1 ≡ (hit hz key now w).1
  unfolding hit
  verdict-eq key now v w l s c = ground arith

  -- Whatever a sweep drops, a hit at the sweep's instant or later, on any key, has the verdict that it
  -- would have had without the sweep.
  pub verdict-sweep :
      (key : String) (clock now : ℕ) (w : FixedWindow)
      → clock ≤ now
      → (hit hz key now (sweep hz none clock w)).1 ≡ (hit hz key now w).1
  verdict-sweep key clock now w h =
      verdict-eq key now (sweep hz none clock w) w (unfold sweep in refl) (unfold sweep in refl)
        (current-sweep clock now w key h)

  counts-hit :
      (key other : String) (now later start : ℕ) (v w : FixedWindow)
      → start ≤ now
      → now ≤ later
      → Agree hz start v w
      → (str_eq key other ≡ true) ⊎ (str_eq key other ≡ false)
      → current hz (hit hz key now v).0 other later ≡ current hz (hit hz key now w).0 other later
  unfolding hit
  counts-hit key other now later start v w h after a (inl e) = rw (e, a.counts key now h, a.window)
  counts-hit key other now later start v w h after a (inr e) =
      rw e (a.counts other later (omega arith))

  pub hit-Agree :
      (key : String) (now start : ℕ) (v w : FixedWindow)
      → start ≤ now
      → Agree hz start v w
      → ((hit hz key now v).1 ≡ (hit hz key now w).1)
        × Agree hz now (hit hz key now v).0 (hit hz key now w).0
  hit-Agree key now start v w h a =
      let same = a.counts key now h in
      (
        verdict-eq key now v w a.limit a.window same,
        record {
          limit = unfold hit in a.limit;
          window = unfold hit in a.window;
          counts = λ other later after.
              counts-hit key other now later start v w h after a (Bool-cases (str_eq key other));
        },
      )
