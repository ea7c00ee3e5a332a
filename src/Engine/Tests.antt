-- ===== src/Engine/Tests.antt =====
-- Runs of the simulation, and each theorem at an input that meets its hypotheses.
use korean_stock_trading_sys.Common.{
  ℕ, ◌≡◌, refl, ◌+ℤ◌, ◌-ℤ◌, pos, negsuc, some, none, List, [], ◌∷◌,
}
use korean_stock_trading_sys.Common.Dict.{get, put, remove}
use korean_stock_trading_sys.Common.Exec.{ok}
use korean_stock_trading_sys.Decimal.{
  literal, mul, add, sub, lt, le, fix, to_int, div, shift, half_even, max_dec, min_dec,
}
use korean_stock_trading_sys.Symbol.{line_match, full_match}
use korean_stock_trading_sys.Clock.{Datetime, kst, clock_time, before, instant}
use korean_stock_trading_sys.Signal.{EntrySignal, ExitSignal, exit, stop_loss, MinuteBar}
use mathlib.Core.Option.{some-injective}
use korean_stock_trading_sys.Costs.{
  buy_fill_price, sell_fill_price, buy_commission, sell_commission, sell_tax, commission,
}
use korean_stock_trading_sys.Risk.{
  default_config, new_manager, start_session, evaluate_entry, validate_signal, judge, limit_reason,
  is_halted, halt_threshold_krw, judge_notional, record_entry, record_exit,
}
use korean_stock_trading_sys.Orb.{
  on_bar, on_time, in_session, dispatch_bar, accumulate_or, dispatch_position, seek_entry,
  enter_long, check_exit, lines, close_all,
}
use korean_stock_trading_sys.Engine.{
  BacktestConfig, Book, ActiveLot, process_signals, handle, handle_entry, fill_entry, pay, recorded,
  handle_exit, sale_of, settle, exited, close_signals, check_closed,
}
use korean_stock_trading_sys.Common.Totals.{total}
use korean_stock_trading_sys.Engine.Books.{realised}
use korean_stock_trading_sys.Engine.Ledger.{Sound, handle-Sound}
use korean_stock_trading_sys.Engine.Run.{IsClosed, run_with_settles, net_pnl-run}
use korean_stock_trading_sys.Engine.Outcomes.{ExitWays, handle_exit_ways}
use korean_stock_trading_sys.Engine.Loop.{
  chosen, opening_book, run, run_with, BacktestResult, loop, on_each, turn_session, begin_session,
  finish, close_session, result_of, ending,
}

abbrev config : BacktestConfig
config = record {
  starting_capital_krw = pos 5_000_000;
  commission_rate = literal 15 5;
  sell_tax_rate = literal 18 4;
  slippage_rate = literal 1 3;
  strategy_config = none;
  strategy_factory = none;
  risk_config = none;
}

abbrev at : ℕ → ℕ → Datetime
at h m = record { date = 739_000; time = clock_time h m; offset = kst }

abbrev bar_at : Datetime → ℕ → ℕ → ℕ → MinuteBar
bar_at t high low close = record {
  symbol = "005930";
  bar_time = t;
  open_price = literal close 0;
  high = literal high 0;
  low = literal low 0;
  close = literal close 0;
  volume = 0;
}

-- The opening range, a breakout, and a bar that touches the stop line.
abbrev bars : List MinuteBar
bars =
    bar_at (at 9 0) 10_100 9_900 10_000
    ∷ bar_at (at 9 30) 10_200 10_000 10_200
    ∷ bar_at (at 9 31) 10_300 10_000 10_100
    ∷ []

abbrev result : BacktestResult
result = record {
  trades =
      record {
        symbol = "005930";
        entry_ts = at 9 30;
        entry_price = literal 10_210_200 3;
        exit_ts = at 9 31;
        exit_price = literal 10_036_953_000 6;
        qty = pos 98;
        exit_reason = stop_loss;
        gross_pnl_krw = negsuc 16_977;
        commission_krw = pos 297;
        tax_krw = pos 1_770;
        net_pnl_krw = negsuc 19_044;
      }
      ∷ [];
  daily_equity = record { session_date = 739_000; equity_krw = pos 4_980_955 } ∷ [];
  net_pnl_krw = negsuc 19_044;
  rejected_counts = [];
  post_slippage_rejections = 0;
}

run_runs : run config bars ≡ ok result
unfolding run run_with loop on_each turn_session begin_session finish close_session result_of ending
    new_manager start_session evaluate_entry validate_signal full_match line_match judge
    limit_reason is_halted halt_threshold_krw judge_notional record_entry record_exit get put remove
    mul add sub fix div shift half_even to_int lt le max_dec min_dec on_bar on_time in_session
    before instant dispatch_bar accumulate_or dispatch_position seek_entry enter_long check_exit
    lines close_all buy_fill_price sell_fill_price buy_commission sell_commission sell_tax
    commission process_signals handle handle_entry fill_entry pay recorded handle_exit sale_of
    settle exited close_signals check_closed ◌+ℤ◌ ◌-ℤ◌
run_runs = refl

net_pnl-run_example : result.net_pnl_krw ≡ realised result.trades
net_pnl-run_example = net_pnl-run config bars result run_runs

run_with_settles_example :
    Sound (pos 5_000_000) (run_with (chosen config) config bars).1.book
    × ((run_with (chosen config) config bars).0 ≡ ok tt
        → IsClosed (run_with (chosen config) config bars).1.book
          × (ending (pos 5_000_000) (run_with (chosen config) config bars).1.daily_equity
              ≡ pos 5_000_000 +ℤ realised (run_with (chosen config) config bars).1.book.trades))
run_with_settles_example = run_with_settles (chosen config) config bars

abbrev signal : EntrySignal
signal = record {
  symbol = "005930";
  price = literal 10_200 0;
  ts = at 9 30;
  stop_price = literal 10_047_000 3;
  take_price = literal 10_506_000 3;
}

-- The session has begun, with the capital in cash.
abbrev morning : Book
morning = record (opening_book config) {
  risk = record (new_manager default_config) {
    session_date = some 739_000;
    starting_capital_krw = some (pos 5_000_000);
  };
}

abbrev stopped : ExitSignal
stopped = record {
  symbol = "005930";
  price = literal 10_047_000 3;
  ts = at 9 31;
  reason = stop_loss;
}

abbrev lot : ActiveLot
lot = record {
  symbol = "005930";
  entry_fill_price = literal 10_210_200 3;
  qty = pos 98;
  entry_ts = at 9 30;
  entry_notional_krw = pos 1_000_599;
  buy_commission_krw = pos 150;
}

abbrev holding : Book
holding = record morning {
  cash = pos 3_999_251;
  active = ("005930", lot) ∷ [];
  risk = record morning.risk {
    entries_today = 1;
    active_positions =
        (
          "005930",
          record {
            symbol = "005930";
            entry_price = literal 10_210_200 3;
            qty = pos 98;
            entry_ts = at 9 30;
          },
        )
        ∷ [];
  };
}

handle_exit_ways_example :
    ExitWays config stopped holding (handle_exit {E = Unit {0}} config stopped holding)
handle_exit_ways_example = handle_exit_ways (Unit {0}) config stopped holding

holding-Sound : Sound (pos 5_000_000) holding
unfolding new_manager total realised ◌+ℤ◌
holding-Sound = record {
  balanced = refl;
  synced = (refl, (refl, refl, refl, refl), tt);
  day = λ base h. rw⁻¹ (some-injective (pos 5_000_000) base h) refl;
}

handle-Sound_example : Sound (pos 5_000_000) (handle {E = Unit {0}} config (exit stopped) holding).1
handle-Sound_example =
    handle-Sound (pos 5_000_000) (Unit {0}) config (exit stopped) holding holding-Sound
