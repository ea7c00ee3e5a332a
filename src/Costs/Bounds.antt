-- ===== src/Costs/Bounds.antt =====
-- backtest/costs.py: fill prices against their reference, and how the charges round.
use native.Mathlib.Nat.{zero-div, div-mul-le_self, lt-div-mul-add}
use korean_stock_trading_sys.Common.{
  ◌/◌, ◌*◌, ◌<◌, ◌⊎◌, inl, inr, refl, Bool-cases, ℕ, ◌+◌, subst, sym, ◌≡◌, true, false, ℤ, pos,
  ◌≤ℤ◌, ◌≤◌, arith, mag, ◌^◌,
}
use korean_stock_trading_sys.Common.Exec.{Result, ok, err}
use korean_stock_trading_sys.Decimal.{Decimal, of_nat, le, mul, to_int, limit, negative}
use korean_stock_trading_sys.Decimal.Order.{
  nonneg_dec, of_parts, IsShort, IsNonneg, raised, lowered, le-raised, lowered-le,
}
use korean_stock_trading_sys.Decimal.Exact.{dec, mul_exact, ten_pow_pos}
use korean_stock_trading_sys.Costs.{
  CostError, negative_notional, negative_rate, buy_fill_price, sell_fill_price, commission,
  buy_commission, sell_commission, sell_tax,
}

rate_below_one : (m t : ℕ) → le (of_nat 1) (dec m t) ≡ false → m + 0 ≤ 10 ^ t
unfolding le
rate_below_one m t h = ground arith

-- A sale fills at a price no higher than the reference and a purchase at one no lower, for a
-- reference and a rate that are not negative, a rate below 1, and products of at most 28 digits.
pub fills_around :
    (p r : Decimal)
    → IsNonneg p
    → IsNonneg r
    → le (of_nat 1) r ≡ false
    → IsShort p r
    → (buy : Decimal) × (sell : Decimal) × (buy_fill_price p r ≡ ok buy)
      × (sell_fill_price p r ≡ ok sell)
      × (le sell p ≡ true)
      × (le p buy ≡ true)
unfolding buy_fill_price sell_fill_price
fills_around p r hp hr below short = (
  raised p r,
  lowered p r,
  ground arith,
  ground arith,
  lowered-le p r short hp (hr, rate),
  le-raised p r short hp hr,
)
  where
    rate : mag r.coeff ≤ 10 ^ r.scale
    rate =
        subst (λ x. le (of_nat 1) x ≡ false → mag x.coeff ≤ 10 ^ x.scale) (sym (nonneg_dec r hr))
          (rate_below_one (mag r.coeff) r.scale) below

-- A charge: refused where the notional is negative, and else where the rate is; or the greatest
-- whole number of won that is no more than the product of the two.
abbrev pub IsChargeOf : Decimal → Decimal → Result CostError ℤ → Type 0
IsChargeOf n r (err e) =
    ((e ≡ negative_notional) × (negative n ≡ true))
    ⊎ ((e ≡ negative_rate) × IsNonneg n × (negative r ≡ true))
IsChargeOf n r (ok c) =
    IsNonneg n
    × IsNonneg r
    × (pos 0 ≤ℤ c)
    × (mag c * 10 ^ (n.scale + r.scale) ≤ mag n.coeff * mag r.coeff)
    × (mag n.coeff * mag r.coeff < (mag c + 1) * 10 ^ (n.scale + r.scale))

to_int-dec : (a k : ℕ) → to_int (dec a k) ≡ pos (a / 10 ^ k)
unfolding to_int
to_int-dec a k = rw (zero-div (10 ^ k)) (ground arith)

whole_part :
    (n s m t : ℕ)
    → n * m < limit
    → IsChargeOf (dec n s) (dec m t) (ok (to_int (mul (dec n s) (dec m t))))
whole_part n s m t h =
    let p = 10 ^ (s + t) in
    rw (mul_exact n s m t h, to_int-dec (n * m) (s + t))
      (
        omega arith,
        omega arith,
        omega arith,
        omega (arith, div-mul-le_self (n * m) p),
        omega (arith, lt-div-mul-add {a = n * m} {b = p} (ten_pow_pos (s + t))),
      )

commission-IsChargeOf :
    (n r : Decimal) → mag n.coeff * mag r.coeff < limit → IsChargeOf n r (commission n r)
unfolding commission
commission-IsChargeOf n r short = elim (Bool-cases (negative n)) [
  | inl below ↦ rw (below, commission) (inl (refl, below))
  | inr fine ↦
      let hn : IsNonneg n = ground (arith, fine) in
      elim (Bool-cases (negative r)) [
        | inl below ↦ rw (fine, commission) (rw below (inr (refl, hn, below)))
        | inr good ↦
            let hr : IsNonneg r = ground (arith, good) in
            rw (fine, commission)
              (rw good (
                of_parts (λ x y. IsChargeOf x y (ok (to_int (mul x y)))) n r hn hr
                  (whole_part (mag n.coeff) n.scale (mag r.coeff) r.scale short)))
      ]
]

-- Each of the three charges, for a notional and a rate whose product has at most 28 digits: refused
-- where the notional is negative, and else where the rate is; or the greatest whole number of won
-- that is no more than the product of the two, and not negative.
pub charges-IsChargeOf :
    (n r : Decimal)
    → mag n.coeff * mag r.coeff < limit
    → IsChargeOf n r (buy_commission n r)
      × IsChargeOf n r (sell_commission n r)
      × IsChargeOf n r (sell_tax n r)
unfolding buy_commission sell_commission sell_tax commission
charges-IsChargeOf n r short = let h = commission-IsChargeOf n r short in (h, h, h)
