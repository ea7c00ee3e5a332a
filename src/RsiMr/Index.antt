-- ===== src/RsiMr/Index.antt =====
-- strategy/rsi_mr.py: the index of relative strength never divides by zero.
use korean_stock_trading_sys.Common.{
  ◌≡◌, inl, inr, refl, true, false, Bool-cases, pos, mag, ◌≤ℤ◌, arith, List, [], ◌∷◌, ltb, length,
  ◌==◌, neg_ℤ,
}
use korean_stock_trading_sys.Common.Exec.{Result, ok, err, is_ok}
use korean_stock_trading_sys.Decimal.{Decimal, add, sub, of_nat, of_int, not_positive}
use korean_stock_trading_sys.Decimal.Order.{IsNonneg, IsPos}
use korean_stock_trading_sys.Decimal.Positive.{
  add_one-IsPos, add-IsNonneg, quotient, div-quotient, quotient-IsNonneg,
}
use korean_stock_trading_sys.RsiMr.{
  RsiError, RsiMrConfig, moves, strength, averaged, some_ok, rsi_of, compute_rsi, buffer_size,
}

abbrev Gains : Decimal × Decimal → Type 0
Gains (g, l) = IsNonneg g × IsNonneg l

moves-Gains :
    (prev : Decimal) (cs : List Decimal) (g l : Decimal)
    → IsNonneg g
    → IsNonneg l
    → Gains (moves prev cs g l)
unfolding moves
moves-Gains prev [] g l hg hl = (hg, hl)
moves-Gains prev (c ∷ cs) g l hg hl = elim (Bool-cases (not_positive (sub c prev))) [
  | inl down ↦
      let loss : Decimal = record {
        coeff = neg_ℤ (sub c prev).coeff;
        scale = (sub c prev).scale;
      } in
      let h : IsNonneg loss = ground (arith, down) in
      rw (down, moves) (moves-Gains c cs g (add l loss) hg (add-IsNonneg l loss hl h))
  | inr up ↦
      let h : IsNonneg (sub c prev) = ground (arith, up) in
      rw (up, moves) (moves-Gains c cs (add g (sub c prev)) l (add-IsNonneg g (sub c prev) hg h) hl)
]

pos_not_zero : (x : Decimal) → IsPos x → (mag x.coeff == 0) ≡ false
pos_not_zero x h = ground arith

strength-is_ok : (g l : Decimal) → IsNonneg g → IsNonneg l → is_ok (strength g l) ≡ true
unfolding strength
strength-is_ok g l hg hl = elim (Bool-cases (mag l.coeff == 0)) [
  | inl zero ↦ rw (zero, strength) refl
  | inr some_loss ↦
      let hp : IsPos l = ground (arith, some_loss) in
      let below = add_one-IsPos (quotient g l) (quotient-IsNonneg g l hg hp) in
      rw (some_loss, strength)
        (rw (div-quotient g l some_loss) (
          rw
            (div-quotient (of_nat 100) (add (of_nat 1) (quotient g l))
              (pos_not_zero (add (of_nat 1) (quotient g l)) below))
            refl))
]

averaged-is_ok :
    (period : Decimal) (m : Decimal × Decimal)
    → IsPos period
    → Gains m
    → is_ok (averaged period m) ≡ true
averaged-is_ok period (g, l) hp (hg, hl) =
    let h = pos_not_zero period hp in
    rw (div-quotient g period h, is_ok)
      (rw (div-quotient l period h, is_ok)
        (strength-is_ok (quotient g period) (quotient l period) (quotient-IsNonneg g period hg hp)
          (quotient-IsNonneg l period hl hp)))

some_ok-is_ok : (r : Result RsiError Decimal) → is_ok r ≡ true → is_ok (some_ok r) ≡ true
some_ok-is_ok (ok x) h = refl
some_ok-is_ok (err e) h = h

pub compute_rsi-is_ok :
    (c : RsiMrConfig) (buf : List Decimal)
    → pos 1 ≤ℤ c.rsi_period
    → is_ok (compute_rsi c buf) ≡ true
unfolding compute_rsi
compute_rsi-is_ok c buf h = elim (Bool-cases (ltb (length buf) (buffer_size c))) [
  | inl short ↦ rw (short, compute_rsi) refl
  | inr long ↦ rw (long, compute_rsi) (whole buf)
]
  where
    whole : (buf : List Decimal) → is_ok (rsi_of c.rsi_period buf) ≡ true
    whole [] = refl
    whole (x ∷ xs) = some_ok-is_ok _ (
        averaged-is_ok (of_int c.rsi_period) _ h
          (moves-Gains x xs (of_nat 0) (of_nat 0) (omega arith) (omega arith)))
