-- ===== src/RsiMr/Returns.antt =====
-- backtest/rsi_mr.py: a run over bars in order returns.
use korean_stock_trading_sys.Common.{
  ℕ, ◌≡◌, inl, inr, refl, sym, ap, ◌∙◌, subst, true, false, Bool-cases, Option-cases, ℤ, pos, mag,
  ltb, leb_ℤ, ◌-ℤ◌, ◌+ℤ◌, Same, ◌≤ℤ◌, arith, List, [], ◌∷◌, length, String, ◌==◌,
}
use korean_stock_trading_sys.Common.Dict.{get, put, contains, is_in}
use korean_stock_trading_sys.RsiMr.Follow.{buy_one_cases}
use korean_stock_trading_sys.RsiMr.Ledger.{OnOk, and_then-OnOk}
use korean_stock_trading_sys.Common.Exec.{Result, ok, err, is_ok, Result-cases}
use korean_stock_trading_sys.Decimal.{Decimal, mul, add, of_nat, of_int, not_positive}
use korean_stock_trading_sys.Decimal.Positive.{quotient, div-quotient}
use korean_stock_trading_sys.Signal.{EntrySignal, ExitSignal, MinuteBar}
use korean_stock_trading_sys.RsiMr.{
  RsiError, RsiMrConfig, RsiMrStrategy, Read, on_bar, check_config, new_strategy, check_numbers,
  check_universe, no_universe,
}
use korean_stock_trading_sys.RsiMr.Run.{Settled, finished-Settled}
use korean_stock_trading_sys.Engine.Books.{realised}
use korean_stock_trading_sys.RsiMr.Baseline.{
  BaselineConfig, BaselineError, Baseline, exits, entries, sell_one, sell_all, held_by, attempt_buy,
  buy_one, buy_all, and_then, process_signals,
}
use korean_stock_trading_sys.RsiMr.Simulation.{
  open_session, note_close, noted, answered, take_bar, take_bars, new_baseline, finished, run,
}
use korean_stock_trading_sys.RsiMr.Ordered.{
  in_order, in_order-Passes, Heard, on_bar-Heard, Ready, empty_buffers-every,
}

-- No division of the purchases fails, and the strategy stays as it answered.
module _ (c : BaselineConfig) where
  attempt_buy-is_ok :
      (s : EntrySignal) (alloc : Decimal) (b : Baseline)
      → is_ok (held_by s b (attempt_buy c b.cash s alloc)) ≡ true
  unfolding attempt_buy
  attempt_buy-is_ok s alloc b =
      let fill = mul s.price (add (of_nat 1) c.slippage_rate) in
      elim (Bool-cases (not_positive fill)) [
        | inl bad ↦ rw (bad, attempt_buy) refl
        | inr good ↦
            let h : (mag fill.coeff == 0) ≡ false = ground (arith, good) in
            rw (good, attempt_buy) (rw (div-quotient alloc fill h, held_by) refl)
      ]

  pos_not_zero : (z : ℤ) → leb_ℤ z (pos 0) ≡ false → (mag z == 0) ≡ false
  pos_not_zero z h = ground arith

  buy_one-is_ok : (s : EntrySignal) (b : Baseline) → is_ok (buy_one c s b) ≡ true
  unfolding buy_one
  buy_one-is_ok s b = elim (Bool-cases (contains s.symbol b.lots)) [
    | inl held ↦ rw (held, buy_one) refl
    | inr new ↦
        let slots = c.rsi.max_positions -ℤ pos (length b.lots) in
        elim (Bool-cases (leb_ℤ slots (pos 0))) [
          | inl full ↦ rw (new, buy_one) (rw full refl)
          | inr free ↦
              let whole = mul (of_int b.cash) c.rsi.position_pct in
              rw (new, buy_one)
                (rw free (
                  rw (div-quotient whole (of_int slots) (pos_not_zero slots free), is_ok)
                    (attempt_buy-is_ok s (quotient whole (of_int slots)) b)))
        ]
  ]

  buy_all-is_ok : (ss : List EntrySignal) (b : Baseline) → is_ok (buy_all c ss b) ≡ true
  unfolding buy_all
  buy_all-is_ok [] b = refl
  buy_all-is_ok (s ∷ ss) b = elim (Result-cases (buy_one c s b)) [
    | inl (e, h) ↦ absurd (cc (sym (buy_one-is_ok s b), ap is_ok h))
    | inr (b', h) ↦ rw (h, and_then) (buy_all-is_ok ss b')
  ]

  buy_all-strategy :
      (ss : List EntrySignal) (b : Baseline) (s : RsiMrStrategy)
      → b.strategy ≡ s
      → OnOk (λ x. x.strategy ≡ s) (buy_all c ss b)
  unfolding buy_all
  buy_all-strategy [] b s h = h
  buy_all-strategy (e ∷ ss) b s h =
      and_then-OnOk (λ x. x.strategy ≡ s) (buy_all c ss) (buy_one c e b)
        (λ x k. buy_all-strategy ss x s k)
        (buy_one_cases c e b (λ x. x.strategy ≡ s) (λ cash. h) (λ cash lot. h))

  sell_all-strategy :
      (ss : List ExitSignal) (b : Baseline) → (sell_all c ss b).strategy ≡ b.strategy
  unfolding sell_all sell_one
  sell_all-strategy [] b = refl
  sell_all-strategy (s ∷ ss) b = elim (Option-cases (get s.symbol b.lots)) [
    | inl free ↦ sell_all-strategy ss (sell_one c s b) ∙ rw (free, sell_one) refl
    | inr (lot, held) ↦ sell_all-strategy ss (sell_one c s b) ∙ rw (held, sell_one) refl
  ]

  open_session-strategy : (d : ℕ) (b : Baseline) → (open_session d b).strategy ≡ b.strategy
  unfolding open_session
  open_session-strategy d b = elim (Option-cases b.last_session_date) [
    | inl first ↦ rw (first, open_session) refl
    | inr (e, h) ↦ elim (Bool-cases (e == d)) [
      | inl same ↦ rw (h, open_session) (rw same refl)
      | inr other ↦ rw (h, open_session) (rw other refl)
    ]
  ]

  note_close-strategy :
      (bar : MinuteBar) (b : Baseline) → (note_close c bar b).strategy ≡ b.strategy
  unfolding note_close
  note_close-strategy bar b = elim (Bool-cases (is_in bar.symbol c.rsi.universe)) [
    | inr other ↦ rw (other, note_close) refl
    | inl own ↦ rw (own, note_close) refl
  ]

module _ (c : BaselineConfig) (positive : pos 1 ≤ℤ c.rsi.rsi_period) where
  -- What a turn of the loop leaves: it goes on, with the strategy that has answered.
  abbrev GoesOn : RsiMrStrategy → Result BaselineError Baseline → Type 0
  GoesOn s r = (is_ok r ≡ true) × OnOk (λ b. b.strategy ≡ s) r

  noted-GoesOn :
      (bar : MinuteBar) (s : RsiMrStrategy) (r : Result BaselineError Baseline)
      → GoesOn s r
      → GoesOn s (noted bar r)
  noted-GoesOn bar s (ok b) h = h
  noted-GoesOn bar s (err e) h = h

  answered-GoesOn :
      (bar : MinuteBar) (b : Baseline) (r : Read)
      → is_ok r.0 ≡ true
      → GoesOn r.1 (answered c bar b r)
  unfolding process_signals
  answered-GoesOn bar b (err e, s) h = absurd cc
  answered-GoesOn bar b (ok ss, s) h =
      let x = sell_all c (exits ss) (record b { strategy = s }) in
      noted-GoesOn bar s (buy_all c (entries ss) x) (
        buy_all-is_ok c (entries ss) x,
        buy_all-strategy c (entries ss) x s (sell_all-strategy c (exits ss) _),
      )

  take_bar-GoesOn :
      (bar : MinuteBar) (b : Baseline)
      → is_ok (on_bar bar b.strategy).0 ≡ true
      → GoesOn (on_bar bar b.strategy).1 (take_bar c bar b)
  unfolding take_bar
  take_bar-GoesOn bar b h =
      let b1 = open_session bar.bar_time.date b in
      let same = note_close-strategy c bar b1 ∙ open_session-strategy c bar.bar_time.date b in
      subst
        (λ s.
          GoesOn (on_bar bar b.strategy).1 (answered c bar (note_close c bar b1) (on_bar bar s)))
        (sym same) (answered-GoesOn bar (note_close c bar b1) (on_bar bar b.strategy) h)

  carry_on :
      (bars : List MinuteBar) (bar : MinuteBar) (s : RsiMrStrategy) {r : Read}
      (o : Result BaselineError Baseline)
      → Ready c.rsi s
      → Heard bar s r
      → in_order c.rsi.universe (put bar.symbol bar.bar_time s.last_bar_time) bars ≡ true
      → GoesOn r.1 o
      → ((b : Baseline)
          → Ready c.rsi b.strategy
          → in_order c.rsi.universe b.strategy.last_bar_time bars ≡ true
          → is_ok (take_bars c bars b) ≡ true)
      → is_ok (and_then (take_bars c bars) o) ≡ true
  carry_on bars bar s (err e) ready answer rest g go = g.0
  carry_on bars bar s (ok b) ready answer rest g go =
      go b
        (record {
          same_config = ap (λ x. x.config) g.1 ∙ answer.configured ∙ ready.same_config;
          every = λ k m.
              subst (λ x. contains k x.closes ≡ true) (sym g.1)
                (answer.buffered k (ready.every k m));
        })
        (subst (λ t. in_order c.rsi.universe t bars ≡ true)
          (sym (ap (λ x. x.last_bar_time) g.1 ∙ answer.timed_at)) rest)

  take_bars-is_ok :
      (bars : List MinuteBar) (b : Baseline)
      → Ready c.rsi b.strategy
      → in_order c.rsi.universe b.strategy.last_bar_time bars ≡ true
      → is_ok (take_bars c bars b) ≡ true
  unfolding take_bars
  take_bars-is_ok [] b ready h = refl
  take_bars-is_ok (bar ∷ bars) b ready h =
      let p = in_order-Passes c.rsi.universe b.strategy.last_bar_time bar bars h in
      let period = subst (λ x. pos 1 ≤ℤ x.rsi_period) (sym ready.same_config) positive in
      let answer =
        on_bar-Heard bar b.strategy period p.spelled p.aware p.onward
          (ready.every bar.symbol p.member) in
      carry_on bars bar b.strategy (take_bar c bar b) ready answer p.rest
        (take_bar-GoesOn bar b answer.fine) (take_bars-is_ok bars)

check_numbers-positive :
    (c d : RsiMrConfig)
    → check_numbers c ≡ ok d
    → (pos 1 ≤ℤ c.rsi_period) × (pos 1 ≤ℤ c.max_positions)
unfolding check_numbers
check_numbers-positive c d h = (ground (arith, h), ground (arith, h))

-- A checked configuration has a period and a place.
pub check_config-positive :
    (c d : RsiMrConfig)
    → check_config c ≡ ok d
    → (pos 1 ≤ℤ c.rsi_period) × (pos 1 ≤ℤ c.max_positions)
unfolding check_config
check_config-positive c d h = check_numbers-positive c d (numbers c.universe h)
  where
    after : Result RsiError (Unit {0}) → Result RsiError RsiMrConfig
    after r = elim r [ err e ↦ err e | ok _ ↦ check_numbers c ]

    numbers :
        (ks : List String)
        → elim ks [
          | [] ↦ err no_universe
          | k ∷ ks ↦ elim (check_universe [] (k ∷ ks)) [ err e ↦ err e | ok _ ↦ check_numbers c ]
        ]
          ≡ ok d
        → check_numbers c ≡ ok d
    numbers [] h = absurd cc
    numbers (k ∷ ks) h = elim (Result-cases (check_universe [] (k ∷ ks))) [
      | inl (e, g) ↦ absurd (cc (g, h))
      | inr (u, g) ↦ sym (ap after g) ∙ h
    ]

module _ (c : BaselineConfig) (d : RsiMrConfig) (start last : ℕ) (bars : List MinuteBar)
    (range : ltb last start ≡ false) (checked : check_config c.rsi ≡ ok d)
    (ordered : in_order c.rsi.universe [] bars ≡ true) where
  fresh-Ready : Ready c.rsi (new_strategy c.rsi)
  fresh-Ready = record { same_config = refl; every = empty_buffers-every c.rsi.universe }

  -- A run of a checked configuration over bars in order returns; then no lot is left, and the cash is
  -- the capital and the sum of the profits of the trades.
  pub run_settles :
      (b : Baseline) × (run c start last bars ≡ ok b)
      × ((b.lots ≡ []) × Same b.cash (c.starting_capital_krw +ℤ realised b.trades))
  unfolding run
  run_settles = rw (range, run) (rw checked (returned _ all_taken settled))
    where
      positive : (pos 1 ≤ℤ c.rsi.rsi_period) × (pos 1 ≤ℤ c.rsi.max_positions)
      positive = check_config-positive c.rsi d checked

      all_taken : is_ok (take_bars c bars (new_baseline c)) ≡ true
      all_taken = take_bars-is_ok c positive.0 bars (new_baseline c) fresh-Ready ordered

      settled :
          OnOk (Settled c.starting_capital_krw) (finished c (take_bars c bars (new_baseline c)))
      settled = finished-Settled c bars (omega (arith, positive.1))

      returned :
          (r : Result BaselineError Baseline)
          → is_ok r ≡ true
          → OnOk (Settled c.starting_capital_krw) (finished c r)
          → (b : Baseline) × (finished c r ≡ ok b) × Settled c.starting_capital_krw b
      returned (ok b) h v = (_, refl, v)
      returned (err e) h v = absurd cc
