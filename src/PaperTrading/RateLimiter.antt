-- ===== src/PaperTrading/RateLimiter.antt =====
-- `RateLimiter` (backend/app/paper_trading/engine.py): a fixed window of one second.
pub mod Window
use p2p_treker.Prelude.{
  ℕ, ◌+◌, ◌/◌, ◌≡◌, Bool, true, false, Option, none, some, List, [], ◌∷◌, leb, ◌==◌, if◌then◌else◌,
}

pub record RateLimiter : Type 0 where
  pub max_per_second : ℕ
  pub window : Option ℕ
  pub count : ℕ

pub new_limiter : ℕ → RateLimiter
new_limiter max_per_second = record { max_per_second = max_per_second; window = none; count = 0 }

-- `window != self._window`, where `None` differs from every number.
pub same_window : Option ℕ → ℕ → Bool
same_window none window = false
same_window (some v) window = v == window

roll : RateLimiter → ℕ → RateLimiter
unfolding same_window
roll l window =
    if same_window l.window window then l else record l { window = some window; count = 0 }

spend : RateLimiter → RateLimiter × Bool
spend l =
    if leb l.max_per_second l.count then (l, false) else (record l { count = l.count + 1 }, true)

unfoldable pub allow : RateLimiter → ℕ → RateLimiter × Bool
unfolding roll spend
allow l now_ms = spend (roll l (now_ms / 1000))
