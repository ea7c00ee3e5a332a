-- ===== src/Decimal/Exact.antt =====
-- Where the context does not round: products with 1 + r and 1 - r, and whole numbers.
use native.Mathlib.Nat.{one-le-pow, pow-zero, pow-suc}
use korean_stock_trading_sys.Common.{
  ℕ, zero, suc, ◌+◌, ◌-◌, ◌*◌, ◌^◌, ◌≤◌, ◌<◌, ◌≡◌, ℤ, pos, mag, arith, ap, ◌+ℤ◌, ◌-ℤ◌, int_laws,
}
use korean_stock_trading_sys.Decimal.{Decimal, limit, fix, mul, add, sub, times, aligned, of_nat}

pub fix_exact : (c : ℤ) (s : ℕ) → mag c < limit → fix c s ≡ record { coeff = c; scale = s }
unfolding fix
fix_exact c s h = ground arith

pub pow-add : (b m n : ℕ) → b ^ (m + n) ≡ b ^ m * b ^ n
pow-add b m zero = let e : m + 0 ≡ m = omega arith in rw (e, pow-zero) (omega arith)
pow-add b m (suc n) =
    let e : m + suc n ≡ suc (m + n) = omega arith in
    rw (e, pow-suc b (m + n), pow-suc b n) (omega (arith, ap (λ (x : ℕ). x * b) (pow-add b m n)))

pub ten_pow_pos : (n : ℕ) → 1 ≤ 10 ^ n
ten_pow_pos n = one-le-pow n 10 (omega arith)

-- The value n / 10^s.
abbrev pub dec : ℕ → ℕ → Decimal
dec n s = record { coeff = pos n; scale = s }

pub times_pos : (n m : ℕ) → times (pos n) (pos m) ≡ pos (n * m)
times_pos n m = ground arith

pub mul_exact : (n s m t : ℕ) → n * m < limit → mul (dec n s) (dec m t) ≡ dec (n * m) (s + t)
unfolding mul
mul_exact n s m t h = rw (times_pos n m) (fix_exact (pos (n * m)) (s + t) (omega arith))

pub align_one : (m t : ℕ) → aligned (of_nat 1) (dec m t) ≡ pos (10 ^ t)
align_one m t = ground arith

pub align_to_one : (m t : ℕ) → aligned (dec m t) (of_nat 1) ≡ pos m
align_to_one m t = ground arith

pub plus_pos : (a b : ℕ) → pos a +ℤ pos b ≡ pos (a + b)
plus_pos a b = omega int_laws

minus_pos : (a b : ℕ) → b ≤ a → pos a -ℤ pos b ≡ pos (a - b)
minus_pos a b h = omega int_laws

pub one_plus : (m t : ℕ) → 10 ^ t + m < limit → add (of_nat 1) (dec m t) ≡ dec (10 ^ t + m) t
unfolding add
one_plus m t h =
    rw
      (
        align_one m t,
        align_to_one m t,
        plus_pos (10 ^ t) m,
        fix_exact (pos (10 ^ t + m)) (0 + t) (omega arith),
      )
      (ap (dec (10 ^ t + m)) (omega arith))

pub one_minus :
    (m t : ℕ) → 10 ^ t + m < limit → m ≤ 10 ^ t → sub (of_nat 1) (dec m t) ≡ dec (10 ^ t - m) t
unfolding sub
one_minus m t h k =
    rw
      (
        align_one m t,
        align_to_one m t,
        minus_pos (10 ^ t) m k,
        fix_exact (pos (10 ^ t - m)) (0 + t) (omega arith),
      )
      (ap (dec (10 ^ t - m)) (omega arith))
