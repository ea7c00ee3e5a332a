-- ===== src/Decimal/Order.antt =====
-- Prices moved up and down by a rate, `p * (1 + r)` and `p * (1 - r)`, against the price itself.
use native.Mathlib.Nat.{mul-le-mul_left, mul-le-mul}
use korean_stock_trading_sys.Common.{
  ℕ, ◌+◌, ◌-◌, ◌*◌, ◌^◌, ◌≤◌, ◌<◌, ◌≡◌, ℤ, pos, negsuc, mag, ltb, leb, arith, ap, sym, subst₂, ◌≤ℤ◌,
  true,
}
use korean_stock_trading_sys.Decimal.{Decimal, limit, mul, add, sub, lt, le, of_nat}
use korean_stock_trading_sys.Decimal.Exact.{
  dec, mul_exact, one_plus, one_minus, pow-add, ten_pow_pos,
}

-- `p * (Decimal("1") + r)` and `p * (Decimal("1") - r)`
abbrev pub raised : Decimal → Decimal → Decimal
raised p r = mul p (add (of_nat 1) r)

abbrev pub lowered : Decimal → Decimal → Decimal
lowered p r = mul p (sub (of_nat 1) r)

-- The products of p with 1 + r and 1 - r fit into 28 digits.
abbrev pub IsShort : Decimal → Decimal → Type 0
IsShort p r = (mag p.coeff + 1) * (10 ^ r.scale + mag r.coeff) < limit

abbrev pub IsPos : Decimal → Type 0
IsPos p = pos 1 ≤ℤ p.coeff

abbrev pub IsNonneg : Decimal → Type 0
IsNonneg p = pos 0 ≤ℤ p.coeff

-- r ≤ 1
abbrev pub IsRate : Decimal → Type 0
IsRate r = IsNonneg r × (mag r.coeff ≤ 10 ^ r.scale)

pub lt-dec : (n s m t : ℕ) → lt (dec n s) (dec m t) ≡ ltb (10 ^ t * n) (10 ^ s * m)
unfolding lt
lt-dec n s m t = ground arith

pub le-dec : (n s m t : ℕ) → le (dec n s) (dec m t) ≡ leb (10 ^ t * n) (10 ^ s * m)
unfolding le
le-dec n s m t = ground arith

pub nonneg_coeff : (c : ℤ) → pos 0 ≤ℤ c → c ≡ pos (mag c)
nonneg_coeff (pos n) h = ap pos (omega arith)
nonneg_coeff (negsuc n) h = absurd (omega arith)

pub nonneg_dec : (p : Decimal) → IsNonneg p → p ≡ dec (mag p.coeff) p.scale
nonneg_dec p h = ap (λ c. record { coeff = c; scale = p.scale }) (nonneg_coeff p.coeff h)

mul-le : (a b c : ℕ) → b ≤ c → a * b ≤ a * c
mul-le a b c h = mul-le-mul_left a h

module _ (n s m t : ℕ) (h : (n + 1) * (10 ^ t + m) < limit) where
  raised-dec : raised (dec n s) (dec m t) ≡ dec (n * (10 ^ t + m)) (s + t)
  raised-dec = rw (one_plus m t (omega arith)) (mul_exact n s (10 ^ t + m) t (omega arith))

  lowered-dec : m ≤ 10 ^ t → lowered (dec n s) (dec m t) ≡ dec (n * (10 ^ t - m)) (s + t)
  lowered-dec k = rw (one_minus m t (omega arith) k) (
      mul_exact n s (10 ^ t - m) t
        (omega (arith, mul-le n (10 ^ t - m) (10 ^ t + m) (omega arith))))

-- Multiplied out at a common scale.
module _ (n s m t : ℕ) where
  up_le : 10 ^ (s + t) * n ≤ 10 ^ s * (n * (10 ^ t + m))
  up_le = rw (pow-add 10 s t) (omega arith)

  up_lt : 1 ≤ n → 1 ≤ m → 10 ^ (s + t) * n < 10 ^ s * (n * (10 ^ t + m))
  up_lt a b = rw (pow-add 10 s t) (omega (arith, mul-le-mul (ten_pow_pos s) (mul-le-mul a b)))

  down_le : m ≤ 10 ^ t → 10 ^ s * (n * (10 ^ t - m)) ≤ 10 ^ (s + t) * n
  down_le a =
      rw (pow-add 10 s t) (omega (arith, mul-le (10 ^ s * n) (10 ^ t - m) (10 ^ t) (omega arith)))

  down_lt : m ≤ 10 ^ t → 1 ≤ n → 1 ≤ m → 10 ^ s * (n * (10 ^ t - m)) < 10 ^ (s + t) * n
  down_lt a b c = rw (pow-add 10 s t) (
      omega (
        arith,
        mul-le (10 ^ s * n) (10 ^ t - m + 1) (10 ^ t) (omega arith),
        mul-le-mul (ten_pow_pos s) b,
      ))

abbrev pub OnParts : (Decimal → Decimal → Type 0) → Decimal → Decimal → Type 0
OnParts P p r = P (dec (mag p.coeff) p.scale) (dec (mag r.coeff) r.scale)

pub of_parts :
    (P : Decimal → Decimal → Type 0) (p r : Decimal)
    → IsNonneg p
    → IsNonneg r
    → OnParts P p r
    → P p r
of_parts P p r hp hr x = subst₂ P (sym (nonneg_dec p hp)) (sym (nonneg_dec r hr)) x

leb-true : (a b : ℕ) → a ≤ b → leb a b ≡ true
leb-true a b h = ground arith

ltb-true : (a b : ℕ) → a < b → ltb a b ≡ true
ltb-true a b h = ground arith

module _ (p r : Decimal) (short : IsShort p r) where
  -- n, s and m, t of p and r.
  abbrev n : ℕ
  n = mag p.coeff

  abbrev m : ℕ
  m = mag r.coeff

  -- A price raised by a rate is no lower.
  pub le-raised : IsNonneg p → IsNonneg r → le p (raised p r) ≡ true
  le-raised hp hr =
      of_parts (λ x y. le x (raised x y) ≡ true) p r hp hr
        (rw (raised-dec n p.scale m r.scale short, le-dec)
          (leb-true _ _ (up_le n p.scale m r.scale)))

  pub lt-raised : IsPos p → IsPos r → lt p (raised p r) ≡ true
  lt-raised hp hr =
      of_parts (λ x y. lt x (raised x y) ≡ true) p r (omega arith) (omega arith)
        (rw (raised-dec n p.scale m r.scale short, lt-dec)
          (ltb-true _ _ (up_lt n p.scale m r.scale (omega arith) (omega arith))))

  pub lowered-le : IsNonneg p → IsRate r → le (lowered p r) p ≡ true
  lowered-le hp hr =
      of_parts (λ x y. le (lowered x y) x ≡ true) p r hp hr.0
        (rw (lowered-dec n p.scale m r.scale short hr.1, le-dec)
          (leb-true _ _ (down_le n p.scale m r.scale hr.1)))

  pub lowered-lt : IsPos p → IsPos r → IsRate r → lt (lowered p r) p ≡ true
  lowered-lt hp pr hr =
      of_parts (λ x y. lt (lowered x y) x ≡ true) p r (omega arith) hr.0
        (rw (lowered-dec n p.scale m r.scale short hr.1, lt-dec)
          (ltb-true _ _ (down_lt n p.scale m r.scale hr.1 (omega arith) (omega arith))))
