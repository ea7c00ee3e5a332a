-- ===== src/Realtime/Tests.antt =====
-- data/realtime.py on concrete input.
use mathlib.Core.Option.{none, some}
use korean_stock_trading_sys.Common.{ℕ, ◌+◌, ◌≡◌, refl, true, List, [], ◌∷◌, String, ◌*◌}
use korean_stock_trading_sys.Common.Dict.{get, put}
use korean_stock_trading_sys.Common.Exec.{ok, err}
use korean_stock_trading_sys.Decimal.{of_nat, le}
use korean_stock_trading_sys.Symbol.{line_match}
use korean_stock_trading_sys.Clock.{clock_time, kst, instant}
use korean_stock_trading_sys.Signal.{MinuteBar}
use korean_stock_trading_sys.Realtime.{
  TickQuote, BarAccumulator, RealtimeDataStore, new_store, empty_accumulator, subscribe, on_tick,
  take_tick, new_bar, extend_bar, floor_to_minute, get_minute_bars, get_current_bar, close,
  is_closed, poll_sweep, poll_all, record_sweep_outcome,
}
use korean_stock_trading_sys.Realtime.Runs.{deliver, ticks_for, Shown, deliver-Shown}

abbrev samsung : String
samsung = "005930"

abbrev tick : String → ℕ → ℕ → TickQuote
tick symbol second price = record {
  symbol = symbol;
  price = of_nat price;
  ts = record { date = 1; time = clock_time 9 0 + second * 1_000_000; offset = kst };
}

abbrev ticks : List TickQuote
ticks =
    tick samsung 10 100
    ∷ tick "000660" 20 500
    ∷ tick samsung 50 90
    ∷ tick samsung 59 95
    ∷ tick samsung 65 120
    ∷ []

abbrev subscribed : RealtimeDataStore
subscribed = record new_store { accumulators = (samsung, empty_accumulator) ∷ [] }

subscribe_runs : subscribe samsung new_store ≡ (ok tt, subscribed)
unfolding subscribe line_match get put
subscribe_runs = refl

abbrev bar : ℕ → ℕ → ℕ → ℕ → ℕ → MinuteBar
bar m o h l c = record {
  symbol = samsung;
  bar_time = record { date = 1; time = clock_time 9 m; offset = kst };
  open_price = of_nat o;
  high = of_nat h;
  low = of_nat l;
  close = of_nat c;
  volume = 0;
}

closed_bars_run : get_minute_bars samsung (deliver ticks subscribed) ≡ ok (bar 0 100 100 90 95 ∷ [])
unfolding get_minute_bars deliver on_tick take_tick new_bar extend_bar floor_to_minute instant get
    put le
closed_bars_run = refl

current_bar_runs :
    get_current_bar samsung (deliver ticks subscribed) ≡ ok (some (bar 1 120 120 120 120))
unfolding get_current_bar deliver on_tick take_tick new_bar extend_bar floor_to_minute instant get
    put le
current_bar_runs = refl

closed_refuses : get_minute_bars samsung (close subscribed) ≡ err is_closed
unfolding get_minute_bars close
closed_refuses = refl

abbrev four_failures : RealtimeDataStore
four_failures = record subscribed { polling_consecutive_failures = 4 }

fifth_failure_alerts :
    poll_sweep (λ k. none) four_failures
    ≡ (true, record subscribed { polling_consecutive_failures = 5 })
unfolding poll_sweep poll_all record_sweep_outcome
fifth_failure_alerts = refl

deliver-Shown_example :
    (acc : BarAccumulator) × (get samsung (deliver ticks subscribed).accumulators ≡ some acc)
    × Shown (ticks_for samsung ticks) acc
deliver-Shown_example = deliver-Shown samsung ticks subscribed found
  where
    found : get samsung subscribed.accumulators ≡ some empty_accumulator
    found = unfold get in refl
