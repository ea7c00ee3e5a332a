-- ===== src/RsiMr/Simulation.antt =====
-- backtest/rsi_mr.py: the simulation over the daily bars that a loader streams, from the first bar to
-- the forced sales at its end. Of the metrics all but the profit are left out.
use mathlib.Core.Option.{none, some}
use Prim.Native.Nat.{Ordering}
use Prim.Native.String.{compare as compare_strings}
use korean_stock_trading_sys.Common.{
  ℕ, Bool, true, false, ℤ, pos, ◌+ℤ◌, ◌-ℤ◌, List, [], ◌∷◌, ◌++◌, String, ltb, ◌==◌, if◌then◌else◌,
}
use korean_stock_trading_sys.Common.Dict.{Dict, get, put, is_in}
use korean_stock_trading_sys.Common.Exec.{Result, ok, err}
use korean_stock_trading_sys.Decimal.{Decimal, of_int, mul, to_int}
use korean_stock_trading_sys.Clock.{Datetime}
use korean_stock_trading_sys.Signal.{Signal, MinuteBar}
use korean_stock_trading_sys.Engine.{TradeRecord, DailyEquity}
use korean_stock_trading_sys.RsiMr.{RsiError, RsiMrStrategy, check_config, new_strategy, on_bar}
use korean_stock_trading_sys.RsiMr.Baseline.{
  hypothetical_exit, and_then, process_signals, BaselineConfig, BaselineError, BaselineLot,
  Baseline, bad_range, strategy_error,
}

-- The close of each lot that has one, in whole won.
unfoldable pub unrealized : Dict Decimal → Dict BaselineLot → ℤ
unrealized latest [] = pos 0
unrealized latest ((k, lot) ∷ d) =
    elim (get k latest) [ none ↦ pos 0 | some close ↦ to_int (mul close (of_int lot.qty)) ]
    +ℤ unrealized latest d

abbrev pub equity_snapshot : Baseline → ℤ
equity_snapshot b = b.cash +ℤ unrealized b.latest_close b.lots

abbrev pub with_equity : ℕ → Baseline → Baseline
with_equity d b = record b {
  daily_equity =
      b.daily_equity ++ (record { session_date = d; equity_krw = equity_snapshot b } ∷ []);
}

unfoldable pub open_session : ℕ → Baseline → Baseline
open_session today b = elim b.last_session_date [
  | none ↦ record b { last_session_date = some today }
  | some d ↦ if d == today then b else record (with_equity d b) { last_session_date = some today }
]

unfoldable pub note_close : BaselineConfig → MinuteBar → Baseline → Baseline
note_close c bar b =
    if is_in bar.symbol c.rsi.universe
    then record b { latest_close = put bar.symbol bar.close b.latest_close }
    else b

abbrev pub noted : MinuteBar → Result BaselineError Baseline → Result BaselineError Baseline
noted bar (ok b) = ok (record b { last_bar_time = some bar.bar_time })
noted bar (err e) = err e

abbrev pub answered :
    BaselineConfig
    → MinuteBar
    → Baseline
    → Result RsiError (List Signal) × RsiMrStrategy
    → Result BaselineError Baseline
answered c bar b (err e, s) = err (strategy_error e)
answered c bar b (ok ss, s) = noted bar (process_signals c ss (record b { strategy = s }))

-- One turn of the loop over the bars, and the loop.
unfoldable pub take_bar : BaselineConfig → MinuteBar → Baseline → Result BaselineError Baseline
take_bar c bar b =
    let b' = note_close c bar (open_session bar.bar_time.date b) in
    answered c bar b' (on_bar bar b'.strategy)

unfoldable pub take_bars :
    BaselineConfig → List MinuteBar → Baseline → Result BaselineError Baseline
take_bars c [] b = ok b
take_bars c (bar ∷ bars) b = and_then (take_bars c bars) (take_bar c bar b)

-- `sorted(active_lots)`, with the lot of each symbol.
abbrev pub goes_before : String → String → Bool
goes_before k j = elim (compare_strings k j) [ Ordering.gt ↦ false | _ ↦ true ]

unfoldable pub insert_lot : String → BaselineLot → Dict BaselineLot → Dict BaselineLot
insert_lot k lot [] = (k, lot) ∷ []
insert_lot k lot ((j, w) ∷ d) =
    if goes_before k j then (k, lot) ∷ (j, w) ∷ d else (j, w) ∷ insert_lot k lot d

unfoldable pub sorted_lots : Dict BaselineLot → Dict BaselineLot
sorted_lots [] = []
sorted_lots ((k, lot) ∷ d) = insert_lot k lot (sorted_lots d)

abbrev pub with_sale : Baseline → ℤ × TradeRecord → Baseline
with_sale b (cash, trade) = record b { cash = cash; trades = b.trades ++ (trade ∷ []) }

-- The loop of forced sales; the lots are cleared behind it.
unfoldable pub force_one : BaselineConfig → Datetime → String → BaselineLot → Baseline → Baseline
force_one c ts k lot b = elim (get k b.latest_close) [
  | none ↦ b
  | some close ↦ with_sale b (hypothetical_exit c b.cash lot k close ts)
]

unfoldable pub force_all : BaselineConfig → Datetime → Dict BaselineLot → Baseline → Baseline
force_all c ts [] b = b
force_all c ts ((k, lot) ∷ d) b = force_all c ts d (force_one c ts k lot b)

unfoldable pub close_lots : BaselineConfig → Baseline → Baseline
close_lots c b = elim b.last_bar_time [
  | none ↦ b
  | some ts ↦ record (force_all c ts (sorted_lots b.lots) b) { lots = [] }
]

unfoldable pub end_session : Baseline → Baseline
end_session b = elim b.last_session_date [ none ↦ b | some d ↦ with_equity d b ]

abbrev pub new_baseline : BaselineConfig → Baseline
new_baseline c = record {
  strategy = new_strategy c.rsi;
  cash = c.starting_capital_krw;
  lots = [];
  trades = [];
  daily_equity = [];
  last_session_date = none;
  last_bar_time = none;
  latest_close = [];
}

abbrev pub finished : BaselineConfig → Result BaselineError Baseline → Result BaselineError Baseline
finished c (ok b) = ok (close_lots c (end_session b))
finished c (err e) = err e

-- `compute_rsi_mr_baseline` of a checked configuration, on the bars of the loader.
unfoldable pub run : BaselineConfig → ℕ → ℕ → List MinuteBar → Result BaselineError Baseline
run c start last bars = if ltb last start then err bad_range else elim (check_config c.rsi) [
  | err e ↦ err (strategy_error e)
  | ok _ ↦ finished c (take_bars c bars (new_baseline c))
]

-- `daily_equity[-1].equity_krw if daily_equity else starting`
unfoldable pub last_equity : ℤ → List DailyEquity → ℤ
last_equity start [] = start
last_equity start (e ∷ es) = last_equity e.equity_krw es

-- The metric `net_pnl_krw`.
abbrev pub net_pnl : BaselineConfig → Baseline → ℤ
net_pnl c b = last_equity c.starting_capital_krw b.daily_equity -ℤ c.starting_capital_krw
