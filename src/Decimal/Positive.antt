-- ===== src/Decimal/Positive.antt =====
-- Values that rounding does not bring to zero, and divisions that never fail.
use native.Mathlib.Nat.{pow-suc, div-div-eq-div-mul, mul-le-mul}
use korean_stock_trading_sys.Common.{
  ℕ, zero, suc, ◌+◌, ◌-◌, ◌*◌, ◌/◌, ◌^◌, ◌≤◌, ◌≡◌, inl, inr, refl, sym, subst, pos, mag, ltb, arith,
  Bool-cases, false, ◌==◌, some, ◌≤ℤ◌,
}
use korean_stock_trading_sys.Decimal.{
  Decimal, limit, excess, half_even, fix, fix_mag, add, div, div_mag, of_nat, aligned, with_sign,
  times,
}
use korean_stock_trading_sys.Decimal.Order.{IsNonneg, IsPos, of_parts}
use korean_stock_trading_sys.Decimal.Sign.{fix-IsNonneg}
use korean_stock_trading_sys.Decimal.Exact.{
  dec, ten_pow_pos, times_pos, align_one, align_to_one, plus_pos,
}

excess_stays : (f n : ℕ) → 1 ≤ n → 1 ≤ n / 10 ^ excess f n
unfolding excess
excess_stays zero n h = omega arith
excess_stays (suc f) n h = elim (Bool-cases (ltb n limit)) [
  | inl short ↦ rw (short, excess) (omega arith)
  | inr long ↦
      let e = excess f (n / 10) in
      let tenfold : 10 ^ suc e ≡ 10 * 10 ^ e = omega (arith, pow-suc 10 e) in
      let large : 1 ≤ n / 10 = ground (arith, long) in
      rw (long, excess)
        (subst (λ p. 1 ≤ n / p) (sym tenfold)
          (subst (λ x. 1 ≤ x) (div-div-eq-div-mul n 10 (10 ^ e)) (excess_stays f (n / 10) large)))
]

half_even_ge : (n d : ℕ) → n / d ≤ half_even n d
unfolding half_even
half_even_ge n d = ground arith

fix_mag_pos : (n s : ℕ) → 1 ≤ n → 1 ≤ (fix_mag n s).0
unfolding fix_mag
fix_mag_pos n s h =
    let e = excess n n in
    let stays : 1 ≤ half_even n (10 ^ e) =
      omega (arith, excess_stays n n h, half_even_ge n (10 ^ e)) in
    ground (arith, stays, mul-le-mul stays (ten_pow_pos (e - s)))

fix-IsPos : (n s : ℕ) → 1 ≤ n → IsPos (fix (pos n) s)
unfolding fix
fix-IsPos zero s h = absurd (omega arith)
fix-IsPos (suc n) s h = let r = fix_mag_pos (suc n) s h in ground (arith, r)

pub add_one-IsPos : (x : Decimal) → IsNonneg x → IsPos (add (of_nat 1) x)
add_one-IsPos x h = of_parts (λ a b. IsPos (add (of_nat 1) b)) x x h h (exact (mag x.coeff) x.scale)
  where
    exact : (n s : ℕ) → IsPos (add (of_nat 1) (dec n s))
    exact n s =
        unfold add in
        rw (align_one n s, align_to_one n s, plus_pos (10 ^ s) n)
          (fix-IsPos (10 ^ s + n) (0 + s) (omega (arith, ten_pow_pos s)))

pub add-IsNonneg : (x y : Decimal) → IsNonneg x → IsNonneg y → IsNonneg (add x y)
add-IsNonneg x y hx hy =
    of_parts (λ a b. IsNonneg (add a b)) x y hx hy
      (exact (mag x.coeff) x.scale (mag y.coeff) y.scale)
  where
    scaled : (n s m t : ℕ) → aligned (dec n s) (dec m t) ≡ pos (10 ^ t * n)
    scaled n s m t = ground arith

    exact : (n s m t : ℕ) → IsNonneg (add (dec n s) (dec m t))
    exact n s m t =
        unfold add in
        rw (scaled n s m t, scaled m t n s, plus_pos (10 ^ t * n) (10 ^ s * m))
          (fix-IsNonneg _ (s + t))

-- The quotient by a value other than zero.
abbrev pub quotient : Decimal → Decimal → Decimal
quotient a b =
    let r = div_mag (mag a.coeff * 10 ^ b.scale) (mag b.coeff * 10 ^ a.scale) in
    record { coeff = with_sign (times a.coeff b.coeff) r.0; scale = r.1 }

pub div-quotient : (a b : Decimal) → (mag b.coeff == 0) ≡ false → div a b ≡ some (quotient a b)
unfolding div
div-quotient a b h = rw (h, div) refl

with_sign_pos : (x n : ℕ) → 1 ≤ x → pos 0 ≤ℤ with_sign (pos x) n
with_sign_pos x n h = ground arith

quotient-dec : (n s m t : ℕ) → 1 ≤ m → IsNonneg (quotient (dec n s) (dec m t))
unfolding div_mag
quotient-dec zero s m t h = rw (times_pos 0 m) (ground arith)
quotient-dec (suc n) s m t h =
    rw (times_pos (suc n) m)
      (with_sign_pos (suc n * m) _ (omega (arith, mul-le-mul (succ_pos n) h)))
  where
    succ_pos : (n : ℕ) → 1 ≤ suc n
    succ_pos n = omega arith

pub quotient-IsNonneg : (a b : Decimal) → IsNonneg a → IsPos b → IsNonneg (quotient a b)
quotient-IsNonneg a b ha hb =
    of_parts (λ x y. IsNonneg (quotient x y)) a b ha (omega arith)
      (quotient-dec (mag a.coeff) a.scale (mag b.coeff) b.scale (omega arith))
