-- ===== src/Decimal/Sign.antt =====
-- The sign of rounded values.
use native.Mathlib.Nat.{zero-div}
use korean_stock_trading_sys.Common.{ℕ, zero, suc, ◌*◌, ◌^◌, ◌+◌, pos, mag, ◌≤ℤ◌, arith}
use korean_stock_trading_sys.Decimal.{Decimal, fix, mul, to_int}
use korean_stock_trading_sys.Decimal.Exact.{dec, times_pos}
use korean_stock_trading_sys.Decimal.Order.{IsNonneg, of_parts}

pub fix-IsNonneg : (n s : ℕ) → IsNonneg (fix (pos n) s)
unfolding fix
fix-IsNonneg zero s = ground arith
fix-IsNonneg (suc n) s = ground arith

pub mul-IsNonneg : (a b : Decimal) → IsNonneg a → IsNonneg b → IsNonneg (mul a b)
mul-IsNonneg a b ha hb =
    of_parts (λ x y. IsNonneg (mul x y)) a b ha hb
      (exact (mag a.coeff) a.scale (mag b.coeff) b.scale)
  where
    exact : (n s m t : ℕ) → IsNonneg (mul (dec n s) (dec m t))
    exact n s m t = unfold mul in rw (times_pos n m) (fix-IsNonneg (n * m) (s + t))

pub to_int_nonneg : (a : Decimal) → IsNonneg a → pos 0 ≤ℤ to_int a
to_int_nonneg a h = of_parts (λ x y. pos 0 ≤ℤ to_int x) a a h h (exact (mag a.coeff) a.scale)
  where
    exact : (n s : ℕ) → pos 0 ≤ℤ to_int (dec n s)
    exact n s = unfold to_int in rw (zero-div (10 ^ s)) (ground arith)
