-- ===== src/RsiMr/Tests.antt =====
-- strategy/rsi_mr.py and backtest/rsi_mr.py on concrete input.
use mathlib.Core.Option.{some}
use korean_stock_trading_sys.Common.{
  ℕ, ◌≡◌, refl, true, ℤ, pos, ◌≤ℤ◌, List, [], ◌∷◌, length, map, arith, String, Same, ◌+ℤ◌, ◌-ℤ◌,
}
use korean_stock_trading_sys.Common.Dict.{get, put, remove, is_in}
use korean_stock_trading_sys.Common.Keys.{Within}
use korean_stock_trading_sys.Common.Totals.{total}
use korean_stock_trading_sys.Common.Exec.{Result, ok, err}
use korean_stock_trading_sys.Decimal.{
  literal, of_nat, mul, add, sub, div, le, lt, fix, half_even, shift, excess, to_int,
}
use korean_stock_trading_sys.Symbol.{line_match}
use korean_stock_trading_sys.Clock.{clock_time, kst, before, instant}
use korean_stock_trading_sys.Signal.{MinuteBar, ExitReason, stop_loss, force_close}
use korean_stock_trading_sys.Engine.Books.{realised}
use korean_stock_trading_sys.RsiMr.{
  RsiMrConfig, check_config, check_universe, check_numbers, new_strategy, empty_buffers,
  append_bounded, moves, strength, compute_rsi, seek_entry, seek_exit, read_bar, on_bar,
}
use korean_stock_trading_sys.RsiMr.Baseline.{
  BaselineConfig, Baseline, BaselineError, lot_cost, process_signals, buy_all, sell_all, buy_one,
  sell_one, attempt_buy, buy_lot, execute_exit, hypothetical_exit,
}
use korean_stock_trading_sys.RsiMr.Simulation.{
  take_bar, take_bars, open_session, note_close, force_all, force_one, sorted_lots, insert_lot,
  close_lots, end_session, unrealized, new_baseline, run,
}
use korean_stock_trading_sys.RsiMr.Ledger.{OnOk}
use korean_stock_trading_sys.RsiMr.Run.{take_bars-Sound}
use korean_stock_trading_sys.RsiMr.Ordered.{in_order}
use korean_stock_trading_sys.RsiMr.Returns.{run_settles}
use korean_stock_trading_sys.RsiMr.Plan.{IsPlan, signals, fresh-IsPlan}
use korean_stock_trading_sys.RsiMr.Window.{after, closes_of, last_of, after-last_of}

abbrev samsung : String
samsung = "005930"

abbrev hynix : String
hynix = "000660"

abbrev config : RsiMrConfig
config = record {
  universe = samsung ∷ hynix ∷ [];
  rsi_period = pos 2;
  oversold_threshold = of_nat 30;
  overbought_threshold = of_nat 70;
  stop_loss_pct = literal 3 2;
  max_positions = pos 1;
  position_pct = of_nat 1;
}

abbrev baseline : BaselineConfig
baseline = record {
  starting_capital_krw = pos 1_000_000;
  rsi = config;
  commission_rate = literal 15 5;
  sell_tax_rate = literal 18 4;
  slippage_rate = literal 1 3;
}

abbrev bar : String → ℕ → ℕ → MinuteBar
bar symbol date close = record {
  symbol = symbol;
  bar_time = record { date = date; time = clock_time 9 0; offset = kst };
  open_price = of_nat close;
  high = of_nat close;
  low = of_nat close;
  close = of_nat close;
  volume = 0;
}

-- A fall that leads to an entry, then one below the stop; the other symbol falls later, and is held at
-- the end.
abbrev falls : List MinuteBar
falls =
    bar samsung 1 10_000
    ∷ bar hynix 1 50_000
    ∷ bar samsung 2 9_000
    ∷ bar samsung 3 8_000
    ∷ bar samsung 4 7_000
    ∷ bar hynix 4 49_000
    ∷ bar hynix 5 48_000
    ∷ []

in_order-falls : in_order config.universe [] falls ≡ true
unfolding in_order line_match is_in get put before instant
in_order-falls = refl

config_checked : check_config config ≡ ok config
unfolding check_config check_universe check_numbers line_match get put le lt
config_checked = refl

index_of_a_rise :
    compute_rsi config (of_nat 100 ∷ of_nat 90 ∷ of_nat 120 ∷ [])
    ≡ ok (some (literal 7500000000000000000000000000 26))
unfolding compute_rsi moves strength add sub div fix half_even shift excess ◌-ℤ◌ ◌+ℤ◌
index_of_a_rise = refl

abbrev outcome : Result BaselineError Baseline → Result BaselineError (List ExitReason × ℤ)
outcome (ok b) = ok (map (λ t. t.exit_reason) b.trades, b.cash)
outcome (err e) = err e

run_of_falls : outcome (run baseline 1 5 falls) ≡ ok (stop_loss ∷ force_close ∷ [], pos 962_330)
unfolding run check_config check_universe check_numbers line_match get put remove le lt take_bars
    take_bar open_session note_close process_signals buy_all sell_all buy_one sell_one attempt_buy
    buy_lot execute_exit hypothetical_exit force_all force_one sorted_lots insert_lot close_lots
    end_session unrealized on_bar read_bar seek_entry seek_exit append_bounded compute_rsi moves
    strength add sub mul div fix half_even shift excess to_int ◌-ℤ◌ ◌+ℤ◌ is_in before instant
    empty_buffers
run_of_falls = refl

fresh-IsPlan_example : IsPlan config.max_positions [] [] (signals falls (new_strategy config))
fresh-IsPlan_example = fresh-IsPlan config falls

run_settles_example :
    (b : Baseline) × (run baseline 1 5 falls ≡ ok b)
    × ((b.lots ≡ []) × Same b.cash (pos 1_000_000 +ℤ realised b.trades))
run_settles_example = run_settles baseline config 1 5 falls refl config_checked in_order-falls

after-last_of_example :
    get samsung (after falls (new_strategy config)).closes
    ≡ some (last_of 3 (closes_of samsung falls))
after-last_of_example =
    after-last_of config falls samsung (omega arith) in_order-falls samsung_in_universe
  where
    samsung_in_universe : is_in samsung config.universe ≡ true
    samsung_in_universe = unfold is_in in refl

take_bars-Sound_example :
    OnOk
      (λ b.
        Same (b.cash +ℤ total lot_cost b.lots) (pos 1_000_000 +ℤ realised b.trades)
        × (pos (length b.lots) ≤ℤ pos 1)
        × Within b.lots b.strategy.holdings)
      (take_bars baseline falls (new_baseline baseline))
take_bars-Sound_example = take_bars-Sound baseline falls (omega arith)
