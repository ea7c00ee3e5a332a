-- ===== src/Risk/Gate.antt =====
-- What an approval and a refusal of `RiskManager.evaluate_entry` say.
use korean_stock_trading_sys.Common.{
  ◌⊎◌, Bool-cases, refl, subst, Option, ◌+◌, ◌≡◌, inl, inr, true, false, ℤ, pos, ltb_ℤ, leb_ℤ, ◌≤ℤ◌,
  none, some, length, arith, Option-cases,
}
use korean_stock_trading_sys.Common.Dict.{contains}
use korean_stock_trading_sys.Common.Exec.{ok, ok-injective}
use korean_stock_trading_sys.Decimal.{Decimal, of_int, mul, lt, to_int, div}
use korean_stock_trading_sys.Signal.{EntrySignal}
use korean_stock_trading_sys.Risk.{
  RejectReason, halted_daily_loss, daily_entry_cap, max_positions_reached, duplicate_symbol,
  below_min_notional, insufficient_cash, RiskConfig, RiskDecision, RiskManager, session_capital,
  is_halted, validate_signal, reject, target_notional, judge_notional, limit_reason, judge,
  evaluate_entry,
}

-- Every limit of the configuration holds, and the notional of the approved quantity lies between the
-- minimum and the cash.
pub record Admits (m : RiskManager) (s : EntrySignal) (cash : ℤ) (d : RiskDecision) : Type 0 where
  pub not_halted : is_halted m ≡ false
  pub below_cap : pos (m.entries_today + 1) ≤ℤ m.config.daily_max_entries
  pub has_slot : pos (length m.active_positions + 1) ≤ℤ m.config.max_positions
  pub is_new : contains s.symbol m.active_positions ≡ false
  pub above_minimum : lt (mul (of_int d.qty) s.price) (of_int m.config.min_notional_krw) ≡ false
  pub covered : lt (of_int cash) (mul (of_int d.qty) s.price) ≡ false
  pub no_reason : d.reason ≡ none

limit_reason-none :
    (m : RiskManager) (s : EntrySignal)
    → limit_reason m s ≡ none
    → (is_halted m ≡ false)
      × (pos (m.entries_today + 1) ≤ℤ m.config.daily_max_entries)
      × (pos (length m.active_positions + 1) ≤ℤ m.config.max_positions)
      × (contains s.symbol m.active_positions ≡ false)
unfolding limit_reason
limit_reason-none m s h = ground arith

judge_notional_approved :
    (c : RiskConfig) (s : EntrySignal) (cash target qty : ℤ)
    → let d = judge_notional c s cash target qty in
      d.approved ≡ true
      → (lt (mul (of_int d.qty) s.price) (of_int c.min_notional_krw) ≡ false)
        × (lt (of_int cash) (mul (of_int d.qty) s.price) ≡ false)
        × (d.reason ≡ none)
unfolding judge_notional
judge_notional_approved c s cash target qty = ground arith

judge-Admits :
    (m : RiskManager) (s : EntrySignal) (cash target : ℤ) (d : RiskDecision)
    → judge m s cash target ≡ ok d
    → d.approved ≡ true
    → Admits m s cash d
unfolding judge
judge-Admits m s cash target d h a = elim (Option-cases (limit_reason m s)) [
  | inr (r, e) ↦ ground arith
  | inl e ↦ elim (Option-cases (div (of_int target) s.price)) [
    | inl none_q ↦ ground arith
    | inr (q, some_q) ↦
        ground
          (arith, limit_reason-none m s, judge_notional_approved m.config s cash target (to_int q))
  ]
]

-- An approval, for any state, signal and cash: no halt, room under both counters, a symbol that is
-- not held, and a notional between the minimum and the available cash.
pub evaluate_entry-Admits :
    (m : RiskManager) (s : EntrySignal) (cash : ℤ) (d : RiskDecision)
    → evaluate_entry m s cash ≡ ok d
    → d.approved ≡ true
    → Admits m s cash d
unfolding evaluate_entry
evaluate_entry-Admits m s cash d h a = elim (Option-cases (session_capital m)) [
  | inl e ↦ ground arith
  | inr (c, e) ↦ ground (arith, judge-Admits m s cash (target_notional m.config c) d)
]

-- What a reason for a refusal says of the state, the signal and the cash. The last two are about the
-- whole part of the quotient of the target of the session's capital and the price.
pub data Due (m : RiskManager) (s : EntrySignal) (cash : ℤ) : RejectReason → Type 0 where
  halt_due : is_halted m ≡ true → Due m s cash halted_daily_loss
  cap_due : m.config.daily_max_entries ≤ℤ pos m.entries_today → Due m s cash daily_entry_cap
  slots_due :
      m.config.max_positions ≤ℤ pos (length m.active_positions) → Due m s cash max_positions_reached
  held_due : contains s.symbol m.active_positions ≡ true → Due m s cash duplicate_symbol
  minimum_due :
      {capital : ℤ} {q : Decimal}
      → session_capital m ≡ some capital
      → div (of_int (target_notional m.config capital)) s.price ≡ some q
      → lt (mul (of_int (to_int q)) s.price) (of_int m.config.min_notional_krw) ≡ true
      → Due m s cash below_min_notional
  cash_due :
      {capital : ℤ} {q : Decimal}
      → session_capital m ≡ some capital
      → div (of_int (target_notional m.config capital)) s.price ≡ some q
      → lt (of_int cash) (mul (of_int (to_int q)) s.price) ≡ true
      → Due m s cash insufficient_cash

-- A verdict that is no approval, with the reason that it gives.
abbrev pub Refuses : RiskManager → EntrySignal → ℤ → RiskDecision → Type 0
Refuses m s cash d =
    (d.approved ≡ true)
    ⊎ ((d.qty ≡ pos 0) × ((r : RejectReason) × (d.reason ≡ some r) × Due m s cash r))

-- The reason that is given, if any, is due.
abbrev Given : RiskManager → EntrySignal → ℤ → Option RejectReason → Type 0
Given m s cash none = Unit
Given m s cash (some r) = Due m s cash r

limit_reason-Given :
    (m : RiskManager) (s : EntrySignal) (cash : ℤ) → Given m s cash (limit_reason m s)
unfolding limit_reason
limit_reason-Given m s cash = elim (Bool-cases (is_halted m)) [
  | inl halted ↦ rw (halted, limit_reason) (halt_due halted)
  | inr on ↦ elim (Bool-cases (leb_ℤ m.config.daily_max_entries (pos m.entries_today))) [
    | inl full ↦
        rw (on, limit_reason)
          (rw full (cap_due (leb_ℤ→le m.config.daily_max_entries (pos m.entries_today) full)))
    | inr room ↦
        elim (Bool-cases (leb_ℤ m.config.max_positions (pos (length m.active_positions)))) [
          | inl taken ↦
              rw (on, limit_reason)
                (rw room (
                  rw taken (
                    slots_due
                      (leb_ℤ→le m.config.max_positions (pos (length m.active_positions)) taken))))
          | inr free ↦ elim (Bool-cases (contains s.symbol m.active_positions)) [
            | inl held ↦ rw (on, limit_reason) (rw room (rw free (rw held (held_due held))))
            | inr new ↦ rw (on, limit_reason) (rw room (rw free (rw new tt)))
          ]
        ]
  ]
]
  where
    leb_ℤ→le : (a b : ℤ) → leb_ℤ a b ≡ true → a ≤ℤ b
    leb_ℤ→le a b h = ground arith

judge_notional-Refuses :
    (m : RiskManager) (s : EntrySignal) (cash capital : ℤ) (q : Decimal)
    → session_capital m ≡ some capital
    → div (of_int (target_notional m.config capital)) s.price ≡ some q
    → Refuses m s cash
        (judge_notional m.config s cash (target_notional m.config capital) (to_int q))
unfolding judge_notional
judge_notional-Refuses m s cash capital q hs hq =
    let filled = mul (of_int (to_int q)) s.price in
    elim (Bool-cases (lt filled (of_int m.config.min_notional_krw))) [
      | inl low ↦
          rw (low, judge_notional) (inr (refl, (below_min_notional, refl, minimum_due hs hq low)))
      | inr high ↦ elim (Bool-cases (lt (of_int cash) filled)) [
        | inl dear ↦
            rw (high, judge_notional)
              (rw dear (inr (refl, (insufficient_cash, refl, cash_due hs hq dear))))
        | inr covered ↦ rw (high, judge_notional) (rw covered (inl refl))
      ]
    ]

judge-Refuses :
    (m : RiskManager) (s : EntrySignal) (cash capital : ℤ) (d : RiskDecision)
    → session_capital m ≡ some capital
    → judge m s cash (target_notional m.config capital) ≡ ok d
    → Refuses m s cash d
unfolding judge
judge-Refuses m s cash capital d hs = elim (Option-cases (limit_reason m s)) [
  | inr (r, e) ↦
      rw (e, judge)
        λ h.
          subst (Refuses m s cash) (ok-injective (reject r (target_notional m.config capital)) d h)
            (inr (refl, (r, refl, subst (Given m s cash) e (limit_reason-Given m s cash))))
  | inl e ↦ elim (Option-cases (div (of_int (target_notional m.config capital)) s.price)) [
    | inl none_q ↦ rw (e, judge) (rw none_q λ h. cc)
    | inr (q, some_q) ↦
        rw (e, judge)
          (rw some_q λ h.
            subst (Refuses m s cash) (ok-injective _ d h)
              (judge_notional-Refuses m s cash capital q hs some_q))
  ]
]

-- A verdict, for any state, signal and cash, is an approval, or a refusal of no shares whose reason
-- holds: the halt, the daily cap, the positions or the held symbol of this state, or the notional of
-- the quantity that the target buys at the price, below the minimum or above the cash.
pub evaluate_entry-Refuses :
    (m : RiskManager) (s : EntrySignal) (cash : ℤ) (d : RiskDecision)
    → evaluate_entry m s cash ≡ ok d
    → Refuses m s cash d
unfolding evaluate_entry
evaluate_entry-Refuses m s cash d = elim (Option-cases (session_capital m)) [
  | inl e ↦ rw (e, evaluate_entry) λ h. cc
  | inr (c, e) ↦ elim (Bool-cases (ltb_ℤ cash (pos 0))) [
    | inl owed ↦ rw (e, evaluate_entry) (rw owed λ h. cc)
    | inr funded ↦ elim (Option-cases (validate_signal s)) [
      | inr (x, bad) ↦ rw (e, evaluate_entry) (rw funded (rw bad λ h. cc))
      | inl good ↦ rw (e, evaluate_entry) (rw funded (rw good (judge-Refuses m s cash c d e)))
    ]
  ]
]
