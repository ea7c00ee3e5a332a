-- ===== src/Decimal.antt =====
-- Python's `decimal.Decimal` as the program uses it: finite values under the default context, which
-- keeps 28 significant digits and rounds half to even. A value is coeff / 10^scale, as in Python's
-- own (sign, digits, exponent) with the exponent's sign turned round; a positive exponent is
-- multiplied out, which keeps the value.
pub mod Exact
pub mod Order
pub mod Positive
pub mod Quotient
pub mod Sign
use korean_stock_trading_sys.Common.{
  ℕ, zero, suc, ◌+◌, ◌-◌, ◌*◌, ◌/◌, ◌%◌, ◌^◌, Bool, true, false, ℤ, pos, mag, pos_part, neg_part,
  sub_ℕ, ◌+ℤ◌, ◌-ℤ◌, scale_ℤ, ltb_ℤ, leb_ℤ, Option, none, some, ltb, leb, ◌==◌, if◌then◌else◌, ◌≡◌,
  refl,
}

pub record Decimal : Type 0 where
  pub coeff : ℤ
  pub scale : ℕ

abbrev pub limit : ℕ
limit = 10 ^ 28

-- n / d to the nearest whole number, a tie to the even one.
unfoldable pub half_even : ℕ → ℕ → ℕ
half_even n d =
    let q = n / d in
    let r = n % d in
    if ltb (2 * r) d then q else if ltb d (2 * r) then q + 1 else if q % 2 == 0 then q else q + 1

-- The number of digits that n has beyond 28; n itself is fuel enough.
unfoldable pub excess : ℕ → ℕ → ℕ
excess zero n = 0
excess (suc f) n = elim (ltb n limit) [ true ↦ 0 | false ↦ suc (excess f (n / 10)) ]

-- A magnitude n / 10^s rounded to 28 digits.
unfoldable pub fix_mag : ℕ → ℕ → ℕ × ℕ
unfolding excess half_even
fix_mag n s =
    if ltb n limit
    then (n, s)
    else let e = excess n n in
      if leb e s then (half_even n (10 ^ e), s - e) else (half_even n (10 ^ e) * 10 ^ (e - s), 0)

abbrev pub with_sign : ℤ → ℕ → ℤ
with_sign z n = sub_ℕ (if leb 1 (pos_part z) then n else 0) (if leb 1 (pos_part z) then 0 else n)

-- The context's rounding of coeff / 10^s.
unfoldable pub fix : ℤ → ℕ → Decimal
unfolding fix_mag
fix c s = let (n, t) = fix_mag (mag c) s in record { coeff = with_sign c n; scale = t }

-- `Decimal(n)`, and a literal such as `Decimal("0.015")`: exact.
abbrev pub of_int : ℤ → Decimal
of_int z = record { coeff = z; scale = 0 }

abbrev pub of_nat : ℕ → Decimal
of_nat n = of_int (pos n)

abbrev pub literal : ℕ → ℕ → Decimal
literal n s = record { coeff = pos n; scale = s }

-- The coefficient that a has at the scale of a and b together.
abbrev pub aligned : Decimal → Decimal → ℤ
aligned a b = scale_ℤ (10 ^ b.scale) a.coeff

abbrev pub times : ℤ → ℤ → ℤ
times a b =
    sub_ℕ (pos_part a * pos_part b + neg_part a * neg_part b)
      (pos_part a * neg_part b + neg_part a * pos_part b)

unfoldable pub add : Decimal → Decimal → Decimal
add a b = fix (aligned a b +ℤ aligned b a) (a.scale + b.scale)

unfoldable pub sub : Decimal → Decimal → Decimal
sub a b = fix (aligned a b -ℤ aligned b a) (a.scale + b.scale)

unfoldable pub mul : Decimal → Decimal → Decimal
mul a b = fix (times a.coeff b.coeff) (a.scale + b.scale)

-- Comparisons do not round.
unfoldable pub lt : Decimal → Decimal → Bool
lt a b = ltb_ℤ (aligned a b) (aligned b a)

unfoldable pub le : Decimal → Decimal → Bool
le a b = leb_ℤ (aligned a b) (aligned b a)

-- `min`, `max` of two values: the first of two equal ones.
unfoldable pub max_dec : Decimal → Decimal → Decimal
unfolding lt
max_dec a b = if lt a b then b else a

unfoldable pub min_dec : Decimal → Decimal → Decimal
unfolding lt
min_dec a b = if lt b a then b else a

-- `int(a)`: towards zero.
unfoldable pub to_int : Decimal → ℤ
to_int a = sub_ℕ (pos_part a.coeff / 10 ^ a.scale) (neg_part a.coeff / 10 ^ a.scale)

-- The least k for which n * 10^k / d has 28 digits before the point, for 0 < n and fuel enough.
unfoldable pub shift : ℕ → ℕ → ℕ → ℕ
shift zero n d = 0
shift (suc f) n d = elim (leb (10 ^ 27 * d) n) [ true ↦ 0 | false ↦ suc (shift f (n * 10) d) ]

-- n / d, rounded to 28 digits.
unfoldable pub div_mag : ℕ → ℕ → ℕ × ℕ
div_mag n d =
    if n == 0
    then (0, 0)
    else if ltb n (limit * d)
    then (let k = shift (d + 28) n d in (half_even (n * 10 ^ k) d, k))
    else (let e = excess (n / d) (n / d) in (half_even n (d * 10 ^ e) * 10 ^ e, 0))

-- a / b. `none` is the signal that Python raises for a zero divisor.
unfoldable pub div : Decimal → Decimal → Option Decimal
unfolding div_mag
div a b =
    if mag b.coeff == 0
    then none
    else let (q, k) = div_mag (mag a.coeff * 10 ^ b.scale) (mag b.coeff * 10 ^ a.scale) in
      some (record { coeff = with_sign (times a.coeff b.coeff) q; scale = k })

-- a <= 0
abbrev pub not_positive : Decimal → Bool
not_positive a = leb_ℤ a.coeff (pos 0)

-- a < 0
abbrev pub negative : Decimal → Bool
negative a = ltb_ℤ a.coeff (pos 0)

third : div (of_nat 1) (of_nat 3) ≡ some (literal 3333333333333333333333333333 28)
unfolding div shift half_even
third = refl

two_thirds : div (of_nat 20) (of_nat 3) ≡ some (literal 6666666666666666666666666667 27)
unfolding div shift half_even
two_thirds = refl

stop_of_10000 : mul (of_nat 10000) (sub (of_nat 1) (literal 15 3)) ≡ literal 9850000 3
unfolding mul sub fix ◌-ℤ◌
stop_of_10000 = refl

long_product :
    mul (literal 12345678901234567890 0) (literal 12345678901 3)
    ≡ literal 1524157875294924676514250889 1
unfolding mul fix
long_product = refl
