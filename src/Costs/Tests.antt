-- ===== src/Costs/Tests.antt =====
-- The costs of the default rates, and each theorem at an input that meets its hypotheses.
use korean_stock_trading_sys.Common.{◌≡◌, refl, true, pos, arith, ◌-ℤ◌, ◌+ℤ◌}
use korean_stock_trading_sys.Common.Exec.{ok}
use korean_stock_trading_sys.Decimal.{Decimal, literal, mul, add, sub, le, fix, to_int}
use korean_stock_trading_sys.Costs.{
  buy_fill_price, sell_fill_price, buy_commission, sell_commission, sell_tax,
}
use korean_stock_trading_sys.Costs.Bounds.{fills_around, IsChargeOf, charges-IsChargeOf}

buys : buy_fill_price (literal 10_200 0) (literal 1 3) ≡ ok (literal 10_210_200 3)
unfolding buy_fill_price mul add fix ◌+ℤ◌
buys = refl

sells : sell_fill_price (literal 10_200 0) (literal 1 3) ≡ ok (literal 10_189_800 3)
unfolding sell_fill_price mul sub fix ◌-ℤ◌ le
sells = refl

taxes : sell_tax (literal 1_000_000 0) (literal 18 4) ≡ ok (pos 1_800)
unfolding sell_tax mul fix to_int
taxes = refl

fills_around_example :
    (buy : Decimal) × (sell : Decimal) × (buy_fill_price (literal 10_200 0) (literal 1 3) ≡ ok buy)
    × (sell_fill_price (literal 10_200 0) (literal 1 3) ≡ ok sell)
    × (le sell (literal 10_200 0) ≡ true)
    × (le (literal 10_200 0) buy ≡ true)
unfolding le
fills_around_example =
    fills_around (literal 10_200 0) (literal 1 3) (omega arith) (omega arith) refl (omega arith)

charges-IsChargeOf_example :
    IsChargeOf
      (literal 1_000_000 0)
      (literal 18 4)
      (buy_commission (literal 1_000_000 0) (literal 18 4))
    × IsChargeOf
        (literal 1_000_000 0)
        (literal 18 4)
        (sell_commission (literal 1_000_000 0) (literal 18 4))
    × IsChargeOf
        (literal 1_000_000 0)
        (literal 18 4)
        (sell_tax (literal 1_000_000 0) (literal 18 4))
charges-IsChargeOf_example = charges-IsChargeOf (literal 1_000_000 0) (literal 18 4) (omega arith)
