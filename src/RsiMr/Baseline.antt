-- ===== src/RsiMr/Baseline.antt =====
-- backtest/rsi_mr.py: the purchases and sales of the simulation of the RSI strategy, up to
-- `_process_signals`. Log calls are left out.
use mathlib.Core.Option.{Option, none, some}
use korean_stock_trading_sys.Common.{
  ℕ, ℤ, pos, leb_ℤ, ltb_ℤ, ◌+ℤ◌, ◌-ℤ◌, List, [], ◌∷◌, ◌++◌, String, length, if◌then◌else◌,
}
use korean_stock_trading_sys.Common.Dict.{Dict, get, contains, put, remove}
use korean_stock_trading_sys.Common.Exec.{Result, ok, err}
use korean_stock_trading_sys.Decimal.{
  Decimal, of_int, of_nat, mul, add, sub, div, le, to_int, negative, not_positive,
}
use korean_stock_trading_sys.Clock.{Datetime}
use korean_stock_trading_sys.Signal.{EntrySignal, ExitSignal, Signal, entry, exit, force_close}
use korean_stock_trading_sys.Engine.{TradeRecord, DailyEquity}
use korean_stock_trading_sys.RsiMr.{RsiError, RsiMrConfig, RsiMrStrategy}

-- The rates and the capital are the simulation's own, the rest goes to the strategy.
pub record BaselineConfig : Type 0 where
  pub starting_capital_krw : ℤ
  pub rsi : RsiMrConfig
  pub commission_rate : Decimal
  pub sell_tax_rate : Decimal
  pub slippage_rate : Decimal

pub data BaselineError : Type 0 where
  bad_capital bad_commission bad_tax bad_slippage bad_range zero_divisor : BaselineError
  strategy_error : RsiError → BaselineError

-- `RSIMRBaselineConfig.__post_init__`
unfoldable pub check_baseline : BaselineConfig → Result BaselineError BaselineConfig
check_baseline c =
    if leb_ℤ c.starting_capital_krw (pos 0)
    then err bad_capital
    else if negative c.commission_rate
    then err bad_commission
    else if negative c.sell_tax_rate
    then err bad_tax
    else if negative c.slippage_rate
    then err bad_slippage
    else if le (of_nat 1) c.slippage_rate
    then err bad_slippage
    else ok c

pub record BaselineLot : Type 0 where
  pub qty : ℤ
  pub entry_fill_price : Decimal
  pub entry_ts : Datetime
  pub entry_notional_krw : ℤ
  pub buy_commission_krw : ℤ

-- The local variables of `compute_rsi_mr_baseline`.
pub record Baseline : Type 0 where
  pub strategy : RsiMrStrategy
  pub cash : ℤ
  pub lots : Dict BaselineLot
  pub trades : List TradeRecord
  pub daily_equity : List DailyEquity
  pub last_session_date : Option ℕ
  pub last_bar_time : Option Datetime
  pub latest_close : Dict Decimal

abbrev pub lot_cost : BaselineLot → ℤ
lot_cost lot = lot.entry_notional_krw +ℤ lot.buy_commission_krw

abbrev pub bought_lot : BaselineConfig → EntrySignal → Decimal → ℤ → BaselineLot
bought_lot c s fill qty = record {
  qty = qty;
  entry_fill_price = fill;
  entry_ts = s.ts;
  entry_notional_krw = to_int (mul fill (of_int qty));
  buy_commission_krw = to_int (mul (mul fill (of_int qty)) c.commission_rate);
}

-- `_attempt_buy` behind its quantity.
unfoldable pub buy_lot : ℤ → BaselineLot → ℤ × Option BaselineLot
buy_lot cash lot =
    if leb_ℤ lot.qty (pos 0)
    then (cash, none)
    else if ltb_ℤ cash (lot_cost lot)
    then (cash, none)
    else (cash -ℤ lot_cost lot, some lot)

unfoldable pub attempt_buy :
    BaselineConfig → ℤ → EntrySignal → Decimal → Result BaselineError (ℤ × Option BaselineLot)
attempt_buy c cash s alloc =
    let fill = mul s.price (add (of_nat 1) c.slippage_rate) in
    if not_positive fill then ok (cash, none) else elim (div alloc fill) [
      | none ↦ err zero_divisor
      | some q ↦ ok (buy_lot cash (bought_lot c s fill (to_int q)))
    ]

abbrev pub trade_of : ExitSignal → BaselineLot → Decimal → ℤ → ℤ → ℤ → TradeRecord
trade_of s lot fill notional sell_comm tax =
    let gross = notional -ℤ lot.entry_notional_krw in
    let commission = lot.buy_commission_krw +ℤ sell_comm in
    record {
      symbol = s.symbol;
      entry_ts = lot.entry_ts;
      entry_price = lot.entry_fill_price;
      exit_ts = s.ts;
      exit_price = fill;
      qty = lot.qty;
      exit_reason = s.reason;
      gross_pnl_krw = gross;
      commission_krw = commission;
      tax_krw = tax;
      net_pnl_krw = gross -ℤ commission -ℤ tax;
    }

unfoldable pub execute_exit : BaselineConfig → ℤ → BaselineLot → ExitSignal → ℤ × TradeRecord
execute_exit c cash lot s =
    let fill = mul s.price (sub (of_nat 1) c.slippage_rate) in
    let whole = mul fill (of_int lot.qty) in
    let notional = to_int whole in
    let sell_comm = to_int (mul whole c.commission_rate) in
    let tax = to_int (mul whole c.sell_tax_rate) in
    (cash +ℤ notional -ℤ sell_comm -ℤ tax, trade_of s lot fill notional sell_comm tax)

-- `_hypothetical_exit`, which is the same sale at the last close.
unfoldable pub hypothetical_exit :
    BaselineConfig → ℤ → BaselineLot → String → Decimal → Datetime → ℤ × TradeRecord
unfolding execute_exit
hypothetical_exit c cash lot symbol close ts =
    execute_exit c cash lot
      (record { symbol = symbol; price = close; ts = ts; reason = force_close })

abbrev pub sold : String → Baseline → ℤ × TradeRecord → Baseline
sold symbol b (cash, trade) = record b {
  cash = cash;
  trades = b.trades ++ (trade ∷ []);
  lots = remove symbol b.lots;
}

abbrev pub holds : EntrySignal → Baseline → ℤ × Option BaselineLot → Baseline
holds s b (cash, none) = record b { cash = cash }
holds s b (cash, some lot) = record b { cash = cash; lots = put s.symbol lot b.lots }

abbrev pub exits : List Signal → List ExitSignal
exits [] = []
exits (entry s ∷ ss) = exits ss
exits (exit s ∷ ss) = s ∷ exits ss

abbrev pub entries : List Signal → List EntrySignal
entries [] = []
entries (entry s ∷ ss) = s ∷ entries ss
entries (exit s ∷ ss) = entries ss

-- The two loops of `_process_signals`.
unfoldable pub sell_one : BaselineConfig → ExitSignal → Baseline → Baseline
sell_one c s b = elim (get s.symbol b.lots) [
  | none ↦ b
  | some lot ↦ sold s.symbol b (execute_exit c b.cash lot s)
]

unfoldable pub sell_all : BaselineConfig → List ExitSignal → Baseline → Baseline
sell_all c [] b = b
sell_all c (s ∷ ss) b = sell_all c ss (sell_one c s b)

-- The share of the cash for one of the free places.
abbrev pub share : BaselineConfig → Baseline → Option Decimal
share c b =
    div (mul (of_int b.cash) c.rsi.position_pct)
      (of_int (c.rsi.max_positions -ℤ pos (length b.lots)))

abbrev pub held_by :
    EntrySignal
    → Baseline
    → Result BaselineError (ℤ × Option BaselineLot)
    → Result BaselineError Baseline
held_by s b (err e) = err e
held_by s b (ok o) = ok (holds s b o)

unfoldable pub buy_one : BaselineConfig → EntrySignal → Baseline → Result BaselineError Baseline
buy_one c s b =
    if contains s.symbol b.lots
    then ok b
    else if leb_ℤ (c.rsi.max_positions -ℤ pos (length b.lots)) (pos 0)
    then ok b
    else elim (share c b) [
      | none ↦ err zero_divisor
      | some alloc ↦ held_by s b (attempt_buy c b.cash s alloc)
    ]

abbrev pub and_then :
    (Baseline → Result BaselineError Baseline)
    → Result BaselineError Baseline
    → Result BaselineError Baseline
and_then f (ok b) = f b
and_then f (err e) = err e

unfoldable pub buy_all :
    BaselineConfig → List EntrySignal → Baseline → Result BaselineError Baseline
buy_all c [] b = ok b
buy_all c (s ∷ ss) b = and_then (buy_all c ss) (buy_one c s b)

unfoldable pub process_signals :
    BaselineConfig → List Signal → Baseline → Result BaselineError Baseline
process_signals c ss b = buy_all c (entries ss) (sell_all c (exits ss) b)
