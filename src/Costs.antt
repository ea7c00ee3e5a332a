-- ===== src/Costs.antt =====
-- backtest/costs.py: fill prices under slippage, commission and tax. The executor and the engine both
-- call it.
pub mod Bounds
mod Tests
use korean_stock_trading_sys.Common.{Bool, true, false, ℤ, pos, if◌then◌else◌}
use korean_stock_trading_sys.Common.Exec.{Result, ok, err}
use korean_stock_trading_sys.Decimal.{Decimal, of_nat, mul, add, sub, le, to_int, negative}

-- The `RuntimeError`s, by the argument at fault.
pub data CostError : Type 0 where
  negative_reference negative_slippage slippage_too_large : CostError
  negative_notional negative_rate : CostError

unfoldable pub buy_fill_price : Decimal → Decimal → Result CostError Decimal
buy_fill_price reference slippage_rate =
    if negative reference
    then err negative_reference
    else if negative slippage_rate
    then err negative_slippage
    else ok (mul reference (add (of_nat 1) slippage_rate))

unfoldable pub sell_fill_price : Decimal → Decimal → Result CostError Decimal
sell_fill_price reference slippage_rate =
    if negative reference
    then err negative_reference
    else if negative slippage_rate
    then err negative_slippage
    else if le (of_nat 1) slippage_rate
    then err slippage_too_large
    else ok (mul reference (sub (of_nat 1) slippage_rate))

-- `_commission`, which `buy_commission` and `sell_commission` both are, and `sell_tax` with the same
-- body.
unfoldable pub commission : Decimal → Decimal → Result CostError ℤ
commission notional rate =
    if negative notional
    then err negative_notional
    else if negative rate
    then err negative_rate
    else ok (to_int (mul notional rate))

unfoldable pub buy_commission : Decimal → Decimal → Result CostError ℤ
buy_commission notional rate = commission notional rate

unfoldable pub sell_commission : Decimal → Decimal → Result CostError ℤ
sell_commission notional rate = commission notional rate

unfoldable pub sell_tax : Decimal → Decimal → Result CostError ℤ
sell_tax notional rate =
    if negative notional
    then err negative_notional
    else if negative rate
    then err negative_rate
    else ok (to_int (mul notional rate))
