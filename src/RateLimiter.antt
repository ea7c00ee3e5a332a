-- ===== src/RateLimiter.antt =====
-- broker/rate_limiter.py: the pauses before an order. Times are whole microseconds; the clock and the
-- sleep are outside, functions on a state W.
pub mod Window
mod Tests
use korean_stock_trading_sys.Common.{
  ℕ, zero, ◌+◌, ◌-◌, Bool, true, false, List, [], ◌∷◌, ◌++◌, ltb, leb, if◌then◌else◌, length,
}
use korean_stock_trading_sys.Common.Exec.{Result, ok, err}

pub record Limits : Type 0 where
  pub max_calls : ℕ
  pub period : ℕ
  pub min_interval : ℕ

pub data LimitsError : Type 0 where
  bad_max_calls bad_period : LimitsError

-- The checks of `__init__`; a whole number is not negative.
pub check_limits : Limits → Result LimitsError Limits
check_limits l =
    if ltb l.max_calls 1 then err bad_max_calls else if leb l.period 0 then err bad_period else ok l

pub record Timing (W : Type 0) : Type 0 where
  pub time_fn : W → ℕ × W
  pub sleep_fn : ℕ → W → W

-- `_purge`, on the timestamps from the oldest on.
unfoldable pub purge : Limits → ℕ → List ℕ → List ℕ
purge l now [] = []
purge l now (t ∷ ts) = let rest = purge l now ts in if leb l.period (now - t) then rest else t ∷ ts

-- `_wait_for_window`; a difference below 0 is 0, as `max(0.0, ...)` makes it. No timestamps are fewer
-- than `max_calls`, which is 1 at least.
unfoldable pub wait_for_window : Limits → ℕ → List ℕ → ℕ
wait_for_window l now [] = 0
wait_for_window l now (oldest ∷ ts) =
    if ltb (length (oldest ∷ ts)) l.max_calls then 0 else l.period - (now - oldest)

-- `self._timestamps[-1]`, behind the first one.
unfoldable pub last : ℕ → List ℕ → ℕ
last t [] = t
last t (u ∷ ts) = last u ts

-- `_wait_for_interval`
unfoldable pub wait_for_interval : Limits → ℕ → List ℕ → ℕ
wait_for_interval l now [] = 0
wait_for_interval l now (t ∷ ts) = l.min_interval - (now - last t ts)

abbrev pub max : ℕ → ℕ → ℕ
max a b = if ltb a b then b else a

module _ {W : Type 0} (k : Timing W) (l : Limits) where
  -- The time of the grant, with the timestamps that are left before it.
  abbrev pub after_wait : ℕ → ℕ → List ℕ → W → (ℕ × List ℕ) × W
  after_wait wait now ts w =
      let (now', w') = k.time_fn (k.sleep_fn wait w) in
      if ltb 0 wait then ((now', purge l now' ts), w') else ((now, ts), w)

  unfoldable pub admit : List ℕ → W → (ℕ × List ℕ) × W
  admit timestamps w =
      let (now, w') = k.time_fn w in
      let ts = purge l now timestamps in
      after_wait (max (wait_for_window l now ts) (wait_for_interval l now ts)) now ts w'

  -- `acquire`: the timestamps behind it.
  unfoldable pub acquire : List ℕ → W → List ℕ × W
  acquire timestamps w = let ((now, ts), w') = admit timestamps w in (ts ++ (now ∷ []), w')
