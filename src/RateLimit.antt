-- ===== src/RateLimit.antt =====
-- app/services/ratelimit.py: `RateLimiter`, two `FixedWindow`s (module Window) and the sweep that
-- every 500th request makes. The readings of `time.monotonic()` that one `check` takes are arguments.
pub mod Window
pub mod Unswept
mod Tests
use flyrank_capstone_widgetp.Base.{
  ℕ, ◌+◌, String, Bool, Option, none, some, leb, ◌==◌, str_eq, if◌then◌else◌,
}
use flyrank_capstone_widgetp.RateLimit.Window.{FixedWindow, hit, sweep}

pub record RateLimiter : Type 0 where
  pub by_ip : FixedWindow
  pub by_widget : FixedWindow
  pub requests_since_sweep : ℕ

-- The clock as one `check` reads it: by the two sweeps, if they are made, and by the two hits.
pub record Readings : Type 0 where
  pub sweep_ip : ℕ
  pub sweep_widget : ℕ
  pub hit_ip : ℕ
  pub hit_widget : ℕ

pub data Scope : Type 0 where
  ip widget : Scope

-- `RateLimiter.__init__`
abbrev pub new_limiter : ℕ → ℕ → ℕ → ℕ → RateLimiter
new_limiter ip_limit ip_window widget_limit widget_window = record {
  by_ip = record { limit = ip_limit; window = ip_window; counters = λ _. none };
  by_widget = record { limit = widget_limit; window = widget_window; counters = λ _. none };
  requests_since_sweep = 0;
}

module _ (hz : ℕ) where
  unfoldable pub maybe_sweep : Readings → RateLimiter → RateLimiter
  maybe_sweep r l =
      if leb 500 (l.requests_since_sweep + 1)
      then record {
        by_ip = sweep hz none r.sweep_ip l.by_ip;
        by_widget = sweep hz none r.sweep_widget l.by_widget;
        requests_since_sweep = 0;
      }
      else record l { requests_since_sweep = l.requests_since_sweep + 1 }

  -- `if retry:`, which a wait of 0 seconds would fail
  abbrev pub over : Option ℕ → Option ℕ
  over none = none
  over (some wait) = if wait == 0 then none else some wait

  -- The second half of `check`, after the hit on the address.
  unfoldable pub check_widget :
      Readings → String → RateLimiter → Option ℕ → RateLimiter × Option (Scope × ℕ)
  check_widget r widget_id l (some wait) = (l, some (ip, wait))
  check_widget r widget_id l none =
      let (by_widget, retry) = hit hz widget_id r.hit_widget l.by_widget in
      (
        record l { by_widget = by_widget },
        elim (over retry) [ none ↦ none | some wait ↦ some (widget, wait) ],
      )

  -- `ip or "unknown"`
  abbrev pub ip_key : String → String
  ip_key address = if str_eq address "" then "unknown" else address

  -- `check`: which limit is passed and the seconds to wait, or `none`.
  unfoldable pub check : Readings → String → String → RateLimiter → RateLimiter × Option (Scope × ℕ)
  unfolding maybe_sweep check_widget
  check r address widget_id l =
      let swept = maybe_sweep r l in
      let (by_ip, retry) = hit hz (ip_key address) r.hit_ip swept.by_ip in
      check_widget r widget_id (record swept { by_ip = by_ip }) (over retry)
