-- ===== src/Risk/Breaker.antt =====
-- The daily loss breaker: `is_halted` under exits.
use korean_stock_trading_sys.Common.{
  ◌≡◌, refl, ◌∙◌, true, false, ℤ, pos, leb_ℤ, ◌≤ℤ◌, ◌+ℤ◌, int_laws, String, arith,
}
use korean_stock_trading_sys.Common.Exec.{ok}
use korean_stock_trading_sys.Risk.{RiskManager, halt_threshold_krw, is_halted, record_exit}
use korean_stock_trading_sys.Risk.Session.{dropped}

-- The threshold depends on capital and configuration alone.
threshold-dropped :
    (k : String) (pnl : ℤ) (m : RiskManager)
    → halt_threshold_krw (dropped k pnl m) ≡ halt_threshold_krw m
unfolding halt_threshold_krw
threshold-dropped k pnl m = refl

halted_total :
    (m : RiskManager) → is_halted m ≡ true → m.daily_realized_pnl_krw ≤ℤ halt_threshold_krw m
unfolding is_halted
halted_total m h = ground arith

-- After an exit the breaker is on exactly if the day's total, with this exit, is at the threshold.
pub is_halted-record_exit :
    (k : String) (pnl : ℤ) (m : RiskManager)
    → (record_exit k pnl m).0 ≡ ok tt
    → is_halted (record_exit k pnl m).1
      ≡ leb_ℤ (m.daily_realized_pnl_krw +ℤ pnl) (halt_threshold_krw m)
unfolding record_exit is_halted halt_threshold_krw
is_halted-record_exit k pnl m h = ground arith

-- While the breaker is on, an exit that is recorded and brings no profit leaves it on, and one
-- that lifts the day's total above the threshold turns it off within the day.
pub breaker_moves :
    (k : String) (pnl : ℤ) (m : RiskManager)
    → is_halted m ≡ true
    → (record_exit k pnl m).0 ≡ ok tt
    → (pnl ≤ℤ pos 0 → is_halted (record_exit k pnl m).1 ≡ true)
      × (halt_threshold_krw m +ℤ pos 1 ≤ℤ m.daily_realized_pnl_krw +ℤ pnl
          → is_halted (record_exit k pnl m).1 ≡ false)
breaker_moves k pnl m h e =
    let total = m.daily_realized_pnl_krw in
    let limit = halt_threshold_krw m in
    let moved = is_halted-record_exit k pnl m e in
    (
      λ loss. moved ∙ leb_ℤ_true (total +ℤ pnl) limit (omega (int_laws, halted_total m h)),
      λ gain. moved ∙ leb_ℤ_false (total +ℤ pnl) limit (omega int_laws),
    )
  where
    leb_ℤ_true : (a b : ℤ) → a ≤ℤ b → leb_ℤ a b ≡ true
    leb_ℤ_true a b h = ground arith

    leb_ℤ_false : (a b : ℤ) → ¬ (a ≤ℤ b) → leb_ℤ a b ≡ false
    leb_ℤ_false a b h = ground arith
