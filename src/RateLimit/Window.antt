-- ===== src/RateLimit/Window.antt =====
-- app/services/ratelimit.py: `FixedWindow`.
-- The clock counts ticks, `hz` of them to a second; the source's floats are read as exact numbers.
-- The dict of counters is a function of the key. The lock makes `hit` and `sweep` single steps, but
-- `hit` reads the clock before it takes the lock, so `now` may lie before `started`.
pub mod Budget
pub mod Retry
pub mod Sweep
use flyrank_capstone_widgetp.Base.{
  ℕ, zero, suc, ◌+◌, ◌-◌, ◌*◌, ◌/◌, max, String, Bool, Option, none, some, List, [], ◌∷◌, ltb, leb,
  str_eq, if◌then◌else◌,
}

pub record Counter : Type 0 where
  pub started : ℕ
  pub count : ℕ

pub record FixedWindow : Type 0 where
  pub limit : ℕ
  pub window : ℕ
  pub counters : String → Option Counter

-- `self.counters[key] = …`
abbrev pub put : String → Counter → (String → Option Counter) → String → Option Counter
put k c d j = if str_eq k j then some c else d j

module _ (hz : ℕ) where
  -- `now - started >= self.window`
  abbrev pub expired : FixedWindow → ℕ → Counter → Bool
  expired w now c = leb (c.started + w.window * hz) now

  abbrev pub refresh : FixedWindow → ℕ → Option Counter → Counter
  refresh w now none = record { started = now; count = 0 }
  refresh w now (some c) = if expired w now c then record { started = now; count = 0 } else c

  -- `self.counters.get(key, (now, 0))`, begun anew if its window is over. A counter that begins
  -- now and has counted nothing is the same begun anew.
  abbrev pub current : FixedWindow → String → ℕ → Counter
  current w key now = refresh w now (w.counters key)

  -- `max(1, int(self.window - (now - started)))`
  abbrev pub retry_after : FixedWindow → ℕ → Counter → ℕ
  retry_after w now c = max 1 ((c.started + w.window * hz - now) / hz)

  -- `hit`: counts one request; the seconds to wait if the key is over its limit.
  unfoldable pub hit : String → ℕ → FixedWindow → FixedWindow × Option ℕ
  hit key now w =
      let c = current w key now in
      let counted : Counter = record { started = c.started; count = c.count + 1 } in
      (
        record w { counters = put key counted w.counters },
        if ltb w.limit counted.count then some (retry_after w now counted) else none,
      )

  abbrev live : FixedWindow → ℕ → Option Counter → Option Counter
  live w now none = none
  live w now (some c) = if expired w now c then none else some c

  -- `now or time.monotonic()`: an instant 0 counts as not given
  abbrev pub sweep_time : Option ℕ → ℕ → ℕ
  sweep_time none clock = clock
  sweep_time (some zero) clock = clock
  sweep_time (some (suc t)) clock = suc t

  unfoldable pub sweep : Option ℕ → ℕ → FixedWindow → FixedWindow
  sweep now clock w = record w { counters = λ key. live w (sweep_time now clock) (w.counters key) }

  -- A series of hits on one key, and the verdict of each.
  unfoldable pub hits : String → List ℕ → FixedWindow → List (Option ℕ)
  hits key [] w = []
  hits key (now ∷ rest) w = let (w', verdict) = hit key now w in verdict ∷ hits key rest w'
