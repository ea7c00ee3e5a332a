-- ===== src/Decimal/Quotient.antt =====
-- `int(a / b)`: the whole part of a quotient that is rounded to 28 digits.
use native.Mathlib.Nat.{
  pow-suc, div-eq_of_lt-le, div-add-mod', mod-lt, mul-le-mul, mul-le-mul_right, zero-div, zero-mul,
  add-zero, div-div-eq-div-mul, mul-div-mul_right, div-mul-le_self, lt-mul-div-succ,
}
use korean_stock_trading_sys.Common.{
  ℕ, zero, suc, ◌+◌, ◌*◌, ◌/◌, ◌%◌, ◌^◌, ◌≤◌, ◌<◌, ◌≡◌, ◌⊎◌, inl, inr, ℤ, pos, negsuc, mag, ltb,
  leb, arith, refl, ap, ◌≤ℤ◌, true, false, Bool-cases, ◌==◌, some, leb→le,
}
use korean_stock_trading_sys.Decimal.{
  half_even, shift, limit, div_mag, Decimal, div, to_int, with_sign, times,
}
use korean_stock_trading_sys.Decimal.Order.{IsNonneg, IsPos, of_parts}
use korean_stock_trading_sys.Decimal.Exact.{ten_pow_pos, pow-add, dec, times_pos}

-- Rounded down, or up where the remainder is at least half of the divisor.
half_even_cases :
    (n d : ℕ) → (half_even n d ≡ n / d) ⊎ ((half_even n d ≡ n / d + 1) × (d ≤ 2 * (n % d)))
unfolding half_even
half_even_cases n d = ground arith

-- With the fuel of `div_mag` the loop ends by its test: the quotient has its 28 digits.
shift-reaches : (f n d : ℕ) → 1 ≤ n → 10 ^ 27 * d ≤ n * 10 ^ f → 10 ^ 27 * d ≤ n * 10 ^ shift f n d
unfolding shift
shift-reaches zero n d h k = k
shift-reaches (suc f) n d h k = elim (Bool-cases (leb (10 ^ 27 * d) n)) [
  | inl e ↦ rw (e, shift) (omega (arith, leb→le _ _ e))
  | inr e ↦
      rw (e, shift)
        (rw (pow-suc 10 (shift f (n * 10) d)) (
          omega (
            arith,
            pow-suc 10 f,
            ap (λ (x : ℕ). n * x) (pow-suc 10 f),
            shift-reaches f (n * 10) d,
          )))
]

le_ten_pow : (d : ℕ) → d ≤ 10 ^ d
le_ten_pow zero = omega arith
le_ten_pow (suc d) = omega (arith, le_ten_pow d, pow-suc 10 d, ten_pow_pos d)

fuel_enough : (n d : ℕ) → 1 ≤ n → 10 ^ 27 * d ≤ n * 10 ^ (d + 28)
fuel_enough n d h =
    rw (pow-add 10 d 28) (omega (arith, le_ten_pow d, mul-le-mul_right (10 ^ d * 10 ^ 28) h))

-- P stands for the power of ten, q for n / d, c for n * P / d and r for the rest.
up_stays_below :
    (n d P q c r : ℕ)
    → d < 2 * P
    → c * d + r ≡ n * P
    → d ≤ 2 * r
    → n < (q + 1) * d
    → c + 1 < (q + 1) * P
up_stays_below n d P q c r dP e half lt = elim (Bool-cases (leb ((q + 1) * P) (c + 1))) [
  | inr no_carry ↦ ground arith
  | inl carry ↦ absurd (omega (arith, mul-le-mul_right d (leb→le _ _ carry), mul-le-mul_right P lt))
]

up_stays_above : (n d P q c r : ℕ) → c * d + r ≡ n * P → r < d → q * d ≤ n → q * P ≤ c + 1
up_stays_above n d P q c r e rd le = elim (Bool-cases (leb (q * P) (c + 1))) [
  | inl fine ↦ leb→le _ _ fine
  | inr low ↦ absurd (omega (arith, mul-le-mul_right d (beyond _ _ low), mul-le-mul_right P le))
]
  where
    beyond : (a b : ℕ) → leb a b ≡ false → b + 1 ≤ a
    beyond a b h = ground arith

floor_round :
    (n d P : ℕ)
    → 1 ≤ d
    → 1 ≤ P
    → n < 2 * 10 ^ 27
    → 10 ^ 27 * d ≤ n * P
    → half_even (n * P) d / P ≡ n / d
floor_round n d P hd hP small full = elim (half_even_cases (n * P) d) [
  | inl down ↦ rw (down, div-div-eq-div-mul (n * P) d P) (mul-div-mul_right n d hP)
  | inr up ↦ rw up.0 (
      div-eq_of_lt-le P
        (up_stays_above n d P (n / d) (n * P / d) (n * P % d) (div-add-mod' (n * P) d)
          (mod-lt (n * P) hd) (div-mul-le_self n d))
        (up_stays_below n d P (n / d) (n * P / d) (n * P % d)
          (omega (arith, mul-le-mul_right P small)) (div-add-mod' (n * P) d) up.1
          (omega (arith, lt-mul-div-succ n hd))))
]

suc-ne-zero : (m : ℕ) → (suc m == 0) ≡ false
suc-ne-zero m = ground arith

-- The whole part of the rounded quotient of n and d is the quotient of the whole numbers.
pub div_mag-floor :
    (n d : ℕ) → 1 ≤ d → n < 2 * 10 ^ 27 → let (q, k) = div_mag n d in q / 10 ^ k ≡ n / d
unfolding div_mag
div_mag-floor zero d hd small = rw (zero-div d) (zero-div 1)
div_mag-floor (suc m) d hd small =
    rw (suc-ne-zero m, within, div_mag)
      (floor_round (suc m) d (10 ^ shift (d + 28) (suc m) d) hd (ten_pow_pos _) small
        (shift-reaches (d + 28) (suc m) d (omega arith) (fuel_enough (suc m) d (omega arith))))
  where
    within : ltb (suc m) (limit * d) ≡ true
    within = ground arith

-- The whole part of a / b for whole a and a positive price b: the exact floor.
pub floor_div : Decimal → Decimal → ℕ
floor_div a b = mag a.coeff * 10 ^ b.scale / (mag b.coeff * 10 ^ a.scale)

abbrev pub IsSmall : Decimal → Decimal → Type 0
IsSmall a b = mag a.coeff * 10 ^ b.scale < 2 * 10 ^ 27

div_mag-zero : (d : ℕ) → (div_mag 0 d).0 ≡ 0
unfolding div_mag
div_mag-zero d = refl

with_sign_pos : (z n : ℕ) → 1 ≤ z → with_sign (pos z) n ≡ pos n
with_sign_pos z n h = ground arith

with_sign_zero : with_sign (pos 0) 0 ≡ pos 0
with_sign_zero = refl

pos_coeff : (c : ℤ) → pos 1 ≤ℤ c → (n : ℕ) × (c ≡ pos n) × (1 ≤ n)
pos_coeff (pos n) h = (n, refl, omega arith)
pos_coeff (negsuc n) h = absurd (omega arith)

quotient_sign : (n m q : ℕ) → 1 ≤ m → (n ≡ 0 → q ≡ 0) → with_sign (times (pos n) (pos m)) q ≡ pos q
quotient_sign zero m q h z = rw (z refl, times_pos 0 m) (ground arith)
quotient_sign (suc n) m q h z =
    rw (times_pos (suc n) m)
      (with_sign_pos (suc n * m) q (omega (arith, mul-le-mul (one-le-suc n) h)))
  where
    one-le-suc : (n : ℕ) → 1 ≤ suc n
    one-le-suc n = omega arith

to_int-dec : (q k : ℕ) → to_int (dec q k) ≡ pos (q / 10 ^ k)
unfolding to_int
to_int-dec q k = rw (zero-div (10 ^ k)) (ground arith)

div-dec :
    (n s m t : ℕ)
    → 1 ≤ m
    → let (q, k) = div_mag (n * 10 ^ t) (m * 10 ^ s) in div (dec n s) (dec m t) ≡ some (dec q k)
unfolding div
div-dec n s m t h = rw (
  nonzero m h,
  add-zero n,
  add-zero m,
  quotient_sign n m (div_mag (n * 10 ^ t) (m * 10 ^ s)).0 h empty,
)
  where
    nonzero : (m : ℕ) → 1 ≤ m → (m + 0 == 0) ≡ false
    nonzero m h = ground arith

    empty : n ≡ 0 → (div_mag (n * 10 ^ t) (m * 10 ^ s)).0 ≡ 0
    empty e = rw (e, zero-mul (10 ^ t)) (div_mag-zero (m * 10 ^ s))

abbrev Divides : Decimal → Decimal → Type 0
Divides a b = (q : Decimal) × (div a b ≡ some q) × (to_int q ≡ pos (floor_div a b))

floor_div-dec : (n s m t : ℕ) → floor_div (dec n s) (dec m t) ≡ n * 10 ^ t / (m * 10 ^ s)
unfolding floor_div
floor_div-dec n s m t = rw (add-zero n, add-zero m)

divides : (n s m t : ℕ) → 1 ≤ m → n * 10 ^ t < 2 * 10 ^ 27 → Divides (dec n s) (dec m t)
divides n s m t h k =
    let (q, e) = div_mag (n * 10 ^ t) (m * 10 ^ s) in
    (
      dec q e,
      div-dec n s m t h,
      rw (to_int-dec q e, floor_div-dec n s m t)
          (ap pos (div_mag-floor (n * 10 ^ t) (m * 10 ^ s) (mul-le-mul h (ten_pow_pos s)) k)),
    )

-- The whole part of a quotient is the exact floor, whatever the context rounds off.
pub to_int-div : (a b : Decimal) → IsNonneg a → IsPos b → IsSmall a b → Divides a b
to_int-div a b ha hb small =
    of_parts Divides a b ha (omega arith)
      (divides (mag a.coeff) a.scale (mag b.coeff) b.scale (omega arith) small)

-- The floor times the divisor does not pass the dividend.
pub floor_div-mul-le :
    (a b : Decimal) → floor_div a b * (mag b.coeff * 10 ^ a.scale) ≤ mag a.coeff * 10 ^ b.scale
unfolding floor_div
floor_div-mul-le a b = div-mul-le_self (mag a.coeff * 10 ^ b.scale) (mag b.coeff * 10 ^ a.scale)
