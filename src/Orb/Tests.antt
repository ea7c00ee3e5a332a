-- ===== src/Orb/Tests.antt =====
-- Runs of the opening range breakout, and each theorem at an input that meets its hypotheses.
use korean_stock_trading_sys.Common.{
  ℕ, ◌≤◌, ◌<◌, ◌≡◌, ◌≢◌, refl, true, ◌+ℤ◌, ◌-ℤ◌, some, List, [], ◌∷◌, All, arith,
}
use korean_stock_trading_sys.Common.Dict.{get, put, AllValues}
use korean_stock_trading_sys.Common.Exec.{ok}
use korean_stock_trading_sys.Decimal.{mul, add, sub, lt, le}
use korean_stock_trading_sys.Symbol.{line_match}
use korean_stock_trading_sys.Clock.{Datetime}
use korean_stock_trading_sys.Signal.{EntrySignal, entry, exit, stop_loss, MinuteBar}
use korean_stock_trading_sys.Orb.{
  StrategyConfig, flat, long, SymbolState, blank, OrbStrategy, state_of, in_session, accumulate_or,
  enter_long, lines, check_exit, seek_entry, dispatch_position, dispatch_bar, on_bar, on_time,
}
use korean_stock_trading_sys.Decimal.{literal, max_dec, min_dec, fix}
use korean_stock_trading_sys.Clock.{kst, clock_time, before, instant}
use korean_stock_trading_sys.Orb.Cases.{opened}
use korean_stock_trading_sys.Orb.Invariant.{IsInput, bar, tick, mark, reset, errors, errors-IsInput}
use korean_stock_trading_sys.Orb.Day.{signals_of, feed, entries_of, one_entry_a_day}
use korean_stock_trading_sys.Orb.Entry.{
  IsConfig, Breakout, entry_signal, EntersBy, on_bar-EntersBy, Breakout-enters, Exits, long-Exits,
}
use korean_stock_trading_sys.Orb.Close.{expected, NotLong, on_time-closes}

abbrev config : StrategyConfig
config = record {
  or_start = clock_time 9 0;
  or_end = clock_time 9 30;
  force_close_at = clock_time 15 0;
  stop_loss_pct = literal 15 3;
  take_profit_pct = literal 30 3;
}

config-IsConfig : IsConfig config
config-IsConfig = ground arith

abbrev at : ℕ → ℕ → Datetime
at h m = record { date = 739_000; time = clock_time h m; offset = kst }

abbrev bar_at : Datetime → ℕ → ℕ → ℕ → MinuteBar
bar_at t high low close = record {
  symbol = "005930";
  bar_time = t;
  open_price = literal close 0;
  high = literal high 0;
  low = literal low 0;
  close = literal close 0;
  volume = 0;
}

abbrev new_strategy : OrbStrategy
new_strategy = record { config = config; states = [] }

-- The range, a breakout, a bar that touches both lines, and a second breakout.
abbrev bars : List MinuteBar
bars =
    bar_at (at 9 0) 10_100 9_900 10_000
    ∷ bar_at (at 9 29) 10_050 9_950 10_000
    ∷ bar_at (at 9 30) 10_200 10_000 10_200
    ∷ bar_at (at 9 31) 10_600 10_000 10_400
    ∷ bar_at (at 9 32) 10_700 10_400 10_700
    ∷ []

abbrev bought : EntrySignal
bought = record {
  symbol = "005930";
  price = literal 10_200 0;
  ts = at 9 30;
  stop_price = literal 10_047_000 3;
  take_price = literal 10_506_000 3;
}

feed_runs :
    feed bars new_strategy
    ≡ entry bought
      ∷ exit (record {
        symbol = "005930";
        price = literal 10_047_000 3;
        ts = at 9 31;
        reason = stop_loss;
      })
      ∷ []
unfolding feed on_bar line_match in_session get put before instant dispatch_bar accumulate_or
    max_dec min_dec lt le dispatch_position seek_entry enter_long check_exit lines mul add sub fix
    ◌+ℤ◌ ◌-ℤ◌
feed_runs = refl

one_entry_a_day_example :
    (entries_of "005930" (feed bars new_strategy) ≤ 1)
    × (flat ≢ flat → entries_of "005930" (feed bars new_strategy) ≡ 0)
unfolding in_session get
one_entry_a_day_example = one_entry_a_day "005930" 739_000 bars new_strategy (omega arith)

errors-IsInput_example : All IsInput (
    errors (bar (bar_at (at 9 0) 2 1 2) ∷ mark "1" 3 ∷ tick (at 15 0) ∷ reset [] ∷ []) new_strategy)
errors-IsInput_example =
    errors-IsInput (bar (bar_at (at 9 0) 2 1 2) ∷ mark "1" 3 ∷ tick (at 15 0) ∷ reset [] ∷ [])
      new_strategy tt

-- The range has the high 10,100; the bar of 9:30 closes above it.
abbrev ranged : SymbolState
ranged = record (blank (some 739_000)) {
  or_high = some (literal 10_100 0);
  or_low = some (literal 9_900 0);
  last_bar_time = some (at 9 29);
}

abbrev before_breakout : OrbStrategy
before_breakout = record { config = config; states = ("005930", ranged) ∷ [] }

abbrev breakout_bar : MinuteBar
breakout_bar = bar_at (at 9 30) 10_200 10_000 10_200

breakout : Breakout config breakout_bar flat (some (literal 10_100 0))
unfolding lt
breakout = record {
  is_flat = refl;
  behind_range = omega arith;
  before_close = omega arith;
  high = literal 10_100 0;
  range = refl;
  above = refl;
}

Breakout-enters_example :
    let s = (on_bar breakout_bar before_breakout).1 in
    let e = entry_signal config breakout_bar in
    ((on_bar breakout_bar before_breakout).0 ≡ ok (entry e ∷ []))
    × ((state_of s "005930").position_state ≡ long)
    × ((state_of s "005930").stop_price ≡ some e.stop_price)
    × ((state_of s "005930").take_price ≡ some e.take_price)
    × (lt e.stop_price (literal 10_200 0) ≡ true)
    × (lt (literal 10_200 0) e.take_price ≡ true)
unfolding line_match in_session get before instant ◌+ℤ◌ ◌-ℤ◌
Breakout-enters_example =
    Breakout-enters breakout_bar before_breakout config-IsConfig refl refl refl breakout
      (omega arith) (omega arith) (omega arith) (omega arith)

on_bar-EntersBy_example :
    EntersBy config breakout_bar
      (opened breakout_bar before_breakout)
      (signals_of (on_bar breakout_bar before_breakout).0)
on_bar-EntersBy_example = on_bar-EntersBy breakout_bar before_breakout

abbrev held : SymbolState
held = record ranged {
  position_state = long;
  entry_price = some (literal 10_200 0);
  stop_price = some (literal 10_047 0);
  take_price = some (literal 10_506 0);
  last_bar_time = some (at 9 30);
  last_close = some (literal 10_200 0);
}

abbrev holding : OrbStrategy
holding = record { config = config; states = ("005930", held) ∷ [] }

abbrev wide_bar : MinuteBar
wide_bar = bar_at (at 9 31) 10_600 10_000 10_400

long-Exits_example :
    Exits wide_bar
      (literal 10_047 0)
      (literal 10_506 0)
      (on_bar wide_bar holding).0
      (state_of (on_bar wide_bar holding).1 "005930").position_state
unfolding line_match in_session get before instant ◌+ℤ◌ ◌-ℤ◌
long-Exits_example =
    long-Exits wide_bar holding (literal 10_047 0) (literal 10_506 0) config-IsConfig refl refl refl
      refl refl refl (omega arith)

on_time-closes_example :
    (clock_time 15 0 ≤ clock_time 15 0
      → ((on_time (at 15 0) holding).0 ≡ ok (expected (at 15 0) (("005930", held) ∷ [])))
        × AllValues NotLong (on_time (at 15 0) holding).1.states)
    × (clock_time 15 0 < clock_time 15 0 → on_time (at 15 0) holding ≡ (ok [], holding))
on_time-closes_example = on_time-closes (at 15 0) holding ((refl, refl, refl), tt) refl
