-- ===== src/Signal.antt =====
-- strategy/base.py: the signals that a strategy sends; data/realtime.py: the bar that it consumes.
use korean_stock_trading_sys.Common.{ℕ, String}
use korean_stock_trading_sys.Decimal.{Decimal}
use korean_stock_trading_sys.Clock.{Datetime}

pub data ExitReason : Type 0 where
  stop_loss take_profit force_close : ExitReason

pub record EntrySignal : Type 0 where
  pub symbol : String
  pub price : Decimal
  pub ts : Datetime
  pub stop_price : Decimal
  pub take_price : Decimal

pub record ExitSignal : Type 0 where
  pub symbol : String
  pub price : Decimal
  pub ts : Datetime
  pub reason : ExitReason

pub data Signal : Type 0 where
  entry : EntrySignal → Signal
  exit : ExitSignal → Signal

-- One minute of trades; `bar_time` is its beginning.
pub record MinuteBar : Type 0 where
  pub symbol : String
  pub bar_time : Datetime
  pub open_price : Decimal
  pub high : Decimal
  pub low : Decimal
  pub close : Decimal
  pub volume : ℕ
