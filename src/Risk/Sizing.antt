-- ===== src/Risk/Sizing.antt =====
-- How many shares `RiskManager.evaluate_entry` approves.
use korean_stock_trading_sys.Common.{
  ℕ, zero, suc, ◌+◌, ◌*◌, ◌≤◌, ◌≡◌, inl, inr, sym, ap, ◌∙◌, subst₂, ◌^◌, true, ℤ, pos, mag, ◌≤ℤ◌,
  none, some, ltb, arith, Option-cases,
}
use korean_stock_trading_sys.Common.Exec.{ok}
use korean_stock_trading_sys.Decimal.{Decimal, of_int, mul, lt, to_int, div}
use korean_stock_trading_sys.Signal.{EntrySignal}
use korean_stock_trading_sys.Risk.{
  RiskConfig, check_config, RiskDecision, RiskManager, session_capital, validate_signal,
  target_notional, judge_notional, limit_reason, judge, evaluate_entry,
}
use native.Mathlib.Nat.{mul-le-mul, zero-mul}
use korean_stock_trading_sys.Decimal.Exact.{dec, mul_exact, ten_pow_pos}
use korean_stock_trading_sys.Decimal.Order.{IsPos, lt-dec, nonneg_dec, nonneg_coeff}
use korean_stock_trading_sys.Decimal.Sign.{mul-IsNonneg, to_int_nonneg}
use korean_stock_trading_sys.Decimal.Quotient.{floor_div, IsSmall, to_int-div, floor_div-mul-le}
use korean_stock_trading_sys.Risk.Gate.{Admits, evaluate_entry-Admits}

-- What `__post_init__` of the configuration lets through.
pub record IsConfig (c : RiskConfig) : Type 0 where
  pub pct_pos : IsPos c.position_pct
  pub loss_pos : IsPos c.daily_loss_limit_pct
  pub positions_pos : pos 1 ≤ℤ c.max_positions
  pub entries_pos : pos 1 ≤ℤ c.daily_max_entries
  pub notional_pos : pos 1 ≤ℤ c.min_notional_krw

-- A configuration is constructed, as it was given, exactly if all of its fields are positive.
pub check_config-IsConfig :
    (c : RiskConfig)
    → ((d : RiskConfig) → check_config c ≡ ok d → IsConfig c × (d ≡ c))
      × (IsConfig c → check_config c ≡ ok c)
unfolding check_config
check_config-IsConfig c = ((λ d h. ground arith), (λ h. ground arith))

target_nonneg :
    (c : RiskConfig) (capital : ℤ)
    → IsConfig c
    → pos 1 ≤ℤ capital
    → pos 0 ≤ℤ target_notional c capital
target_nonneg c capital h k =
    to_int_nonneg (mul (of_int capital) c.position_pct)
      (mul-IsNonneg (of_int capital) c.position_pct (omega arith) (omega (arith, h.pct_pos)))

price-IsPos : (s : EntrySignal) → validate_signal s ≡ none → IsPos s.price
unfolding validate_signal
price-IsPos s h = ground arith

-- The quotient behind an approved quantity.
abbrev Quotient : RiskManager → EntrySignal → ℤ → RiskDecision → Type 0
Quotient m s capital d =
    (q : Decimal) × (div (of_int (target_notional m.config capital)) s.price ≡ some q)
    × (d.qty ≡ to_int q)
    × (validate_signal s ≡ none)

judge-quotient :
    (m : RiskManager) (s : EntrySignal) (cash target : ℤ) (d : RiskDecision)
    → judge m s cash target ≡ ok d
    → d.approved ≡ true
    → (q : Decimal) × (div (of_int target) s.price ≡ some q) × (d.qty ≡ to_int q)
unfolding judge judge_notional
judge-quotient m s cash target d h a = elim (Option-cases (limit_reason m s)) [
  | inr (r, e) ↦ ground arith
  | inl e ↦ elim (Option-cases (div (of_int target) s.price)) [
    | inl none_q ↦ ground arith
    | inr (q, some_q) ↦ (q, some_q, ground arith)
  ]
]

evaluate_entry-Quotient :
    (m : RiskManager) (s : EntrySignal) (cash capital : ℤ) (d : RiskDecision)
    → session_capital m ≡ some capital
    → evaluate_entry m s cash ≡ ok d
    → d.approved ≡ true
    → Quotient m s capital d
unfolding evaluate_entry
evaluate_entry-Quotient m s cash capital d hs h a = elim (Option-cases (validate_signal s)) [
  | inr (r, e) ↦ ground arith
  | inl e ↦
      let inner : judge m s cash (target_notional m.config capital) ≡ ok d = ground arith in
      let (q, hq, qty) = judge-quotient m s cash (target_notional m.config capital) d inner a in
      (q, hq, qty, e)
]

below : (P k : ℕ) → 1 ≤ P → 1 ≤ k → ltb (10 ^ 0 * 0) (P * k) ≡ true
below P k hP hk = ground (arith, mul-le-mul hP hk)

zero_below :
    (p : Decimal) (z : ℤ) → IsPos p → pos 1 ≤ℤ z → lt (mul (of_int (pos 0)) p) (of_int z) ≡ true
zero_below p z hp hz =
    subst₂ (λ x y. lt (mul (of_int (pos 0)) x) (of_int y) ≡ true) (sym (nonneg_dec p (omega arith)))
      (sym (nonneg_coeff z (omega arith))) (exact (mag p.coeff) p.scale (mag z) (omega arith))
  where
    exact : (n s k : ℕ) → 1 ≤ k → lt (mul (of_int (pos 0)) (dec n s)) (of_int (pos k)) ≡ true
    exact n s k h =
        rw (mul_exact 0 0 n s (omega arith), lt-dec, zero-mul n)
          (below (10 ^ (0 + s)) k (ten_pow_pos (0 + s)) h)

one_le_qty :
    (m : RiskManager) (s : EntrySignal) (cash : ℤ) (d : RiskDecision) (n : ℕ)
    → IsPos s.price
    → pos 1 ≤ℤ m.config.min_notional_krw
    → Admits m s cash d
    → d.qty ≡ pos n
    → 1 ≤ n
one_le_qty m s cash d zero hp hm ad e =
    cc (zero_below s.price m.config.min_notional_krw hp hm, ad.above_minimum, e)
one_le_qty m s cash d (suc n) hp hm ad e = omega arith

-- For a valid configuration, a capital of at least 1 and a target notional whose quotient with the
-- price has a numerator below 2 * 10^27, an approved quantity is the whole number of shares that
-- the target pays for at the signal's price; it is at least one and costs no more than the target.
pub evaluate_entry-size :
    (m : RiskManager) (s : EntrySignal) (cash capital : ℤ) (d : RiskDecision)
    → session_capital m ≡ some capital
    → IsConfig m.config
    → pos 1 ≤ℤ capital
    → IsSmall (of_int (target_notional m.config capital)) s.price
    → evaluate_entry m s cash ≡ ok d
    → d.approved ≡ true
    → let n = floor_div (of_int (target_notional m.config capital)) s.price in
      (d.qty ≡ pos n)
      × (1 ≤ n)
      × (n * mag s.price.coeff ≤ mag (target_notional m.config capital) * 10 ^ s.price.scale)
evaluate_entry-size m s cash capital d hs hc hk small h a =
    let (q, hq, qty, valid) = evaluate_entry-Quotient m s cash capital d hs h a in
    let priced = price-IsPos s valid in
    let (q', hq', whole) =
      to_int-div (of_int (target_notional m.config capital)) s.price
        (target_nonneg m.config capital hc hk) priced small in
    let admits = evaluate_entry-Admits m s cash d h a in
    let same : q ≡ q' = cc (hq, hq') in
    let sized = qty ∙ ap to_int same ∙ whole in
    (
      sized,
      one_le_qty m s cash d _ priced hc.notional_pos admits sized,
      omega (arith, floor_div-mul-le (of_int (target_notional m.config capital)) s.price),
    )
