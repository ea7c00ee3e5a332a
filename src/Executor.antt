-- ===== src/Executor.antt =====
-- execution/executor.py: what the executor keeps, the broker that it calls and the repeated calls. The
-- broker, the bar source, the clock and the sleep are outside: a record of calls on a state W.
pub mod Orders
pub mod Sweep
pub mod Frame
pub mod InSync
pub mod Restore
pub mod SweepFrame
pub mod Days
pub mod Calls
pub mod Polls
mod Tests
pub mod Reconcile
pub mod Guards
use korean_stock_trading_sys.Common.{
  leb, ℕ, zero, suc, ◌+◌, ◌*◌, ◌^◌, Bool, true, false, not, ◌&&◌, ◌||◌, ℤ, pos, leb_ℤ, ltb_ℤ,
  Option, none, some, List, [], ◌∷◌, String, if◌then◌else◌,
}
use korean_stock_trading_sys.Common.Dict.{Dict}
use korean_stock_trading_sys.Common.Exec.{Result, ok, err, Exec}
use korean_stock_trading_sys.Decimal.{Decimal, of_nat, le, negative}
use korean_stock_trading_sys.Clock.{Datetime}
use korean_stock_trading_sys.Signal.{Signal, ExitReason, MinuteBar}
use korean_stock_trading_sys.Costs.{CostError}
use korean_stock_trading_sys.Risk
use korean_stock_trading_sys.Risk.{RiskError, RiskManager}
use korean_stock_trading_sys.Engine.{Strategy}

pub data Side : Type 0 where
  buy sell : Side

-- broker/kis_client.py
pub record OrderTicket : Type 0 where
  pub order_number : String
  pub symbol : String
  pub side : Side
  pub qty : ℤ

pub record PendingOrder : Type 0 where
  pub order_number : String
  pub symbol : String
  pub side : Side
  pub qty_ordered : ℕ
  pub qty_filled : ℕ
  pub qty_remaining : ℕ

pub record Holding : Type 0 where
  pub symbol : String
  pub qty : ℤ

pub record BalanceSnapshot : Type 0 where
  pub withdrawable : ℤ
  pub holdings : List Holding

-- What a call outside may raise: a `KisClientError`, which is worth another attempt, or another
-- exception.
pub data Fault : Type 0 where
  kis_client_error other_fault : Fault

-- `OrderSubmitter`, `BalanceProvider`, `BarSource`, the clock in microseconds and the sleep.
pub record Outside (W : Type 0) : Type 0 where
  pub submit_buy : String → ℤ → W → Result Fault OrderTicket × W
  pub submit_sell : String → ℤ → W → Result Fault OrderTicket × W
  pub get_pending_orders : W → Result Fault (List PendingOrder) × W
  pub cancel_order : String → W → Result Fault (Unit {0}) × W
  pub get_balance : W → Result Fault BalanceSnapshot × W
  pub get_minute_bars : String → W → Result Fault (List MinuteBar) × W
  pub subscribe : String → W → Result Fault (Unit {0}) × W
  pub unsubscribe : String → W → Result Fault (Unit {0}) × W
  pub clock : W → ℕ × W
  pub sleep : ℕ → W → W

-- Times in microseconds.
pub record ExecutorConfig : Type 0 where
  pub cash_buffer_pct : Decimal
  pub order_fill_timeout : ℕ
  pub order_poll_interval : ℕ
  pub slippage_rate : Decimal
  pub commission_rate : Decimal
  pub sell_tax_rate : Decimal
  pub backoff_max_attempts : ℕ
  pub backoff_initial : ℕ

pub data ExecutorConfigError : Type 0 where
  negative_rate bad_cash_buffer bad_timeout bad_interval bad_attempts bad_initial :
      ExecutorConfigError

-- `ExecutorConfig.__post_init__`
pub check_config : ExecutorConfig → Result ExecutorConfigError ExecutorConfig
check_config c =
    if negative c.cash_buffer_pct
    then err negative_rate
    else if negative c.slippage_rate
    then err negative_rate
    else if negative c.commission_rate
    then err negative_rate
    else if negative c.sell_tax_rate
    then err negative_rate
    else if le (of_nat 1) c.cash_buffer_pct
    then err bad_cash_buffer
    else if leb c.order_fill_timeout 0
    then err bad_timeout
    else if leb c.order_poll_interval 0
    then err bad_interval
    else if leb c.backoff_max_attempts 0
    then err bad_attempts
    else if leb c.backoff_initial 0
    then err bad_initial
    else ok c

-- `ExecutorError`s by what they say, `RuntimeError`s, and errors of the parts that are called.
pub data ExecutorError (E : Type 0) : Type 0 where
  backoff_exceeded missing_entry not_filled naive_now no_session bad_event bad_outcome
        poll_unfinished restore_failed :
      ExecutorError E
  fault : Fault → ExecutorError E
  risk_error : RiskError → ExecutorError E
  cost_error : CostError → ExecutorError E
  strategy_error : E → ExecutorError E

pub record OpenLot : Type 0 where
  pub entry_price : Decimal
  pub qty : ℤ
  pub stop_price : Decimal

pub record EntryEvent : Type 0 where
  pub symbol : String
  pub qty : ℤ
  pub fill_price : Decimal
  pub ref_price : Decimal
  pub timestamp : Datetime
  pub order_number : String

pub record ExitEvent : Type 0 where
  pub symbol : String
  pub qty : ℤ
  pub fill_price : Decimal
  pub reason : ExitReason
  pub net_pnl_krw : ℤ
  pub timestamp : Datetime
  pub order_number : String

-- The mismatches stand in the order of the holdings; the source sorts them for its report.
pub record ReconcileReport : Type 0 where
  pub broker_holdings : Dict ℤ
  pub risk_holdings : Dict ℤ
  pub mismatch_symbols : List String

pub record StepReport : Type 0 where
  pub processed_bars : ℕ
  pub orders_submitted : ℕ
  pub halted : Bool
  pub reconcile : ReconcileReport
  pub entry_events : List EntryEvent
  pub exit_events : List ExitEvent

pub data FillStatus : Type 0 where
  full partial unfilled : FillStatus

pub record FillOutcome : Type 0 where
  pub filled_qty : ℤ
  pub status : FillStatus

-- The executor with the strategy, the risk manager and the outside that it refers to.
pub record Executor (W S : Type 0) : Type 0 where
  pub world : W
  pub strategy : S
  pub risk : RiskManager
  pub last_processed_bar_time : Dict Datetime
  pub open_lots : Dict OpenLot
  pub halt : Bool
  pub last_reconcile : Option ReconcileReport
  pub sweep_entry_events : List EntryEvent
  pub sweep_exit_events : List ExitEvent
  pub pending_signals : List Signal

-- `is_halted`
abbrev pub is_halted : {W S : Type 0} → Executor W S → Bool
is_halted x = x.halt || Risk.is_halted x.risk

-- What `_with_backoff` raises: the limit of the attempts, or another exception at once.
pub data BackoffError : Type 0 where
  exceeded : BackoffError
  passed_on : BackoffError

module _ {W A : Type 0} (out : Outside W) (initial : ℕ) (fn : W → Result Fault A × W) where
  -- `_with_backoff`: n more attempts are left behind this one, the first of which is attempt 0.
  unfoldable pub with_backoff : ℕ → ℕ → W → Result BackoffError A × W
  with_backoff zero attempt w =
      let (r, w') = fn w in
      elim r [
        | ok a ↦ (ok a, w')
        | err e ↦ elim e [
          | kis_client_error ↦ (err exceeded, w')
          | other_fault ↦ (err passed_on, w')
        ]
      ]
  with_backoff (suc n) attempt w =
      let (r, w') = fn w in
      elim r [
        | ok a ↦ (ok a, w')
        | err e ↦ elim e [
          | kis_client_error ↦ with_backoff n (attempt + 1) (out.sleep (initial * 2 ^ attempt) w')
          | other_fault ↦ (err passed_on, w')
        ]
      ]
