-- ===== src/RateLimiter/Tests.antt =====
-- The default limits on a clock that only sleeps move on, and the theorem at a history of three grants.
use korean_stock_trading_sys.Common.{ℕ, ◌+◌, ◌≡◌, refl, [], ◌∷◌, arith}
use korean_stock_trading_sys.RateLimiter.{
  Limits, Timing, purge, wait_for_window, wait_for_interval, last, admit, acquire,
}
use korean_stock_trading_sys.RateLimiter.Window.{Ticks, begin, grant, IsLimited, granted-IsLimited}

abbrev limits : Limits
limits = record { max_calls = 2; period = 1_000_000; min_interval = 350_000 }

abbrev still : Timing ℕ
still = record { time_fn = λ w. (w, w); sleep_fn = λ d w. w + d }

abbrev still-Ticks : Ticks still
still-Ticks = record {
  time = λ w. w;
  reads = λ w. (refl, omega arith);
  sleeps = λ d w. omega arith;
}

waits : acquire still limits (5 ∷ 350_005 ∷ []) 350_005 ≡ (350_005 ∷ 1_000_005 ∷ [], 1_000_005)
unfolding acquire admit purge wait_for_window wait_for_interval last
waits = refl

granted-IsLimited_example :
    IsLimited ℕ still limits still-Ticks (omega arith) (omega arith) (1_000_005 ∷ 350_005 ∷ 5 ∷ [])
unfolding acquire admit purge wait_for_window wait_for_interval last
granted-IsLimited_example =
    granted-IsLimited ℕ still limits still-Ticks (omega arith) (omega arith)
      {h = 1_000_005 ∷ 350_005 ∷ 5 ∷ []} {ts = 350_005 ∷ 1_000_005 ∷ []} {w = 1_000_005}
      (grant (grant (grant (begin 5))))
