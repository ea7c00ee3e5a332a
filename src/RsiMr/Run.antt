-- ===== src/RsiMr/Run.antt =====
-- backtest/rsi_mr.py: whole runs of the simulation.
use korean_stock_trading_sys.Common.{
  ℕ, ◌≡◌, inl, inr, refl, sym, ap, subst, true, Bool-cases, Option-cases, none, some, ℤ, pos, ◌+ℤ◌,
  ◌≤ℤ◌, int_laws, Same, arith, List, [], ◌∷◌, String, ◌==◌, is_some, length,
}
use korean_stock_trading_sys.Common.Dict.{Dict, get, contains, is_in}
use korean_stock_trading_sys.Common.Keys.{Within, AllKeys, Within-AllKeys}
use korean_stock_trading_sys.Common.Totals.{total}
use korean_stock_trading_sys.Common.Exec.{Result, ok, err}
use korean_stock_trading_sys.Decimal.{Decimal}
use korean_stock_trading_sys.Clock.{Datetime}
use korean_stock_trading_sys.Signal.{MinuteBar, ExitSignal, force_close}
use korean_stock_trading_sys.Engine.Books.{realised, realised-append}
use korean_stock_trading_sys.RsiMr.{Read, on_bar, empty_buffers}
use korean_stock_trading_sys.RsiMr.Ledger.{
  OnOk, and_then-OnOk, IsSound, execute_exit-Same, sell_all-IsSound, buy_all-IsSound,
}
use korean_stock_trading_sys.RsiMr.Follow.{Keeps, take_bars-Keeps}
use korean_stock_trading_sys.RsiMr.Baseline.{
  BaselineConfig, BaselineError, BaselineLot, Baseline, lot_cost, sell_all, exits, entries,
  process_signals, hypothetical_exit, execute_exit,
}
use korean_stock_trading_sys.RsiMr.Simulation.{
  open_session, note_close, noted, answered, take_bar, take_bars, insert_lot, sorted_lots,
  force_one, force_all, with_sale, with_equity, goes_before, close_lots, end_session, new_baseline,
  finished,
}

-- Lots are there only behind a bar.
abbrev Awake : Baseline → Type 0
Awake b = b.last_bar_time ≡ none → b.lots ≡ []

module _ (start : ℤ) (c : BaselineConfig) where
  abbrev Whole : Baseline → Type 0
  Whole b = IsSound start c b × Awake b

  open_session-IsSound :
      (d : ℕ) (b : Baseline) → IsSound start c b → IsSound start c (open_session d b)
  unfolding open_session
  open_session-IsSound d b v = elim (Option-cases b.last_session_date) [
    | inl first ↦ rw (first, open_session) v
    | inr (e, h) ↦ elim (Bool-cases (e == d)) [
      | inl same ↦ rw (h, open_session) (rw same v)
      | inr other ↦ rw (h, open_session) (rw other v)
    ]
  ]

  note_close-IsSound :
      (bar : MinuteBar) (b : Baseline) → IsSound start c b → IsSound start c (note_close c bar b)
  unfolding note_close
  note_close-IsSound bar b v = elim (Bool-cases (is_in bar.symbol c.rsi.universe)) [
    | inr other ↦ rw (other, note_close) v
    | inl own ↦ rw (own, note_close) v
  ]

  answered-Whole :
      (bar : MinuteBar) (b : Baseline) (r : Read)
      → IsSound start c b
      → OnOk Whole (answered c bar b r)
  unfolding process_signals
  answered-Whole bar b (err e, s) v = tt
  answered-Whole bar b (ok ss, s) v =
      let x = record b { strategy = s } in
      late (process_signals c ss x) (
        buy_all-IsSound start c (entries ss) (sell_all c (exits ss) x)
          (sell_all-IsSound start c (exits ss) x v))
    where
      late :
          (r : Result BaselineError Baseline) → OnOk (IsSound start c) r → OnOk Whole (noted bar r)
      late (ok b) v = (v, λ h. absurd cc)
      late (err e) v = tt

  take_bars-Whole :
      (bars : List MinuteBar) (b : Baseline) → Whole b → OnOk Whole (take_bars c bars b)
  unfolding take_bars take_bar
  take_bars-Whole [] b v = v
  take_bars-Whole (bar ∷ bars) b v =
      let b1 = open_session bar.bar_time.date b in
      and_then-OnOk Whole (take_bars c bars) (take_bar c bar b) (take_bars-Whole bars) (
        answered-Whole bar (note_close c bar b1) (on_bar bar (note_close c bar b1).strategy)
          (note_close-IsSound bar b1 (open_session-IsSound bar.bar_time.date b v.0)))

-- The order of the forced sales changes neither the keys nor the total.
module _ {κ} (P : String → Type κ) where
  insert_lot-AllKeys :
      (k : String) (lot : BaselineLot) (d : Dict BaselineLot)
      → P k
      → AllKeys P d
      → AllKeys P (insert_lot k lot d)
  unfolding insert_lot
  insert_lot-AllKeys k lot [] p h = (p, tt)
  insert_lot-AllKeys k lot ((j, w) ∷ d) p h = elim (Bool-cases (goes_before k j)) [
    | inl first ↦ rw (first, insert_lot) (p, h)
    | inr later ↦ rw (later, insert_lot) (h.0, insert_lot-AllKeys k lot d p h.1)
  ]

  sorted_lots-AllKeys : (d : Dict BaselineLot) → AllKeys P d → AllKeys P (sorted_lots d)
  unfolding sorted_lots
  sorted_lots-AllKeys [] h = tt
  sorted_lots-AllKeys ((k, lot) ∷ d) h =
      insert_lot-AllKeys k lot (sorted_lots d) h.0 (sorted_lots-AllKeys d h.1)

total-insert_lot :
    (k : String) (lot : BaselineLot) (d : Dict BaselineLot)
    → Same (total lot_cost (insert_lot k lot d)) (lot_cost lot +ℤ total lot_cost d)
unfolding insert_lot total
total-insert_lot k lot [] = omega int_laws
total-insert_lot k lot ((j, w) ∷ d) = elim (Bool-cases (goes_before k j)) [
  | inl first ↦ rw (first, insert_lot) (omega int_laws)
  | inr later ↦ rw (later, insert_lot) (omega (int_laws, total-insert_lot k lot d))
]

total-sorted_lots :
    (d : Dict BaselineLot) → Same (total lot_cost (sorted_lots d)) (total lot_cost d)
unfolding sorted_lots total
total-sorted_lots [] = refl
total-sorted_lots ((k, lot) ∷ d) =
    omega (int_laws, total-insert_lot k lot (sorted_lots d), total-sorted_lots d)

module _ (c : BaselineConfig) (ts : Datetime) where
  abbrev forced : String → Decimal → ExitSignal
  forced k close = record { symbol = k; price = close; ts = ts; reason = force_close }

  force_one_lem :
      (k : String) (lot : BaselineLot) (b : Baseline) (close : Decimal)
      → get k b.latest_close ≡ some close
      → force_one c ts k lot b ≡ with_sale b (execute_exit c b.cash lot (forced k close))
  unfolding force_one hypothetical_exit
  force_one_lem k lot b close e = rw (e, force_one) refl

  -- Forced sales of priced lots leave nothing of their cost.
  force_all-Same :
      (d : Dict BaselineLot) (b : Baseline)
      → AllKeys (λ k. contains k b.latest_close ≡ true) d
      → Same
          ((force_all c ts d b).cash +ℤ realised b.trades)
          ((b.cash +ℤ total lot_cost d) +ℤ realised (force_all c ts d b).trades)
  unfolding force_all total force_one
  force_all-Same [] b h = omega int_laws
  force_all-Same ((k, lot) ∷ d) b h = elim (Option-cases (get k b.latest_close)) [
    | inl never ↦ absurd (cc (ap is_some never))
    | inr (close, e) ↦
        let sale = forced k close in
        let b1 = with_sale b (execute_exit c b.cash lot sale) in
        subst
          (λ x. Same ((force_all c ts d x).cash +ℤ realised b.trades) (
            (b.cash +ℤ (lot_cost lot +ℤ total lot_cost d)) +ℤ realised (force_all c ts d x).trades))
          (sym (force_one_lem k lot b close e))
          (omega (
            int_laws,
            force_all-Same d b1 h.1,
            execute_exit-Same (pos 0) c b.cash lot sale,
            realised-append b.trades (execute_exit c b.cash lot sale).1,
          ))
  ]

-- Cash and trades at the end.
abbrev pub Settled : ℤ → Baseline → Type 0
Settled start b = (b.lots ≡ []) × Same b.cash (start +ℤ realised b.trades)

module _ (c : BaselineConfig) where
  abbrev start : ℤ
  start = c.starting_capital_krw

  close_lots-Settled : (b : Baseline) → Keeps c b → Whole start c b → Settled start (close_lots c b)
  unfolding close_lots
  close_lots-Settled b k v = elim (Option-cases b.last_bar_time) [
    | inl asleep ↦
        let none_open = v.1 asleep in
        let nothing : Same (total lot_cost b.lots) (pos 0) =
          subst (λ x. Same (total lot_cost x) (pos 0)) (sym none_open) (unfold total in refl) in
        rw (asleep, close_lots) (none_open, omega (int_laws, v.0.balanced, nothing))
    | inr (ts, e) ↦
        rw (e, close_lots)
          (
            refl,
            omega (
              int_laws,
              v.0.balanced,
              total-sorted_lots b.lots,
              force_all-Same c ts (sorted_lots b.lots) b
                  (sorted_lots-AllKeys _ b.lots (Within-AllKeys b.lots b.latest_close k.priced)),
            ),
          )
  ]

  end_session-Settled :
      (b : Baseline) → Keeps c b → Whole start c b → Settled start (close_lots c (end_session b))
  unfolding end_session
  end_session-Settled b k v = elim (Option-cases b.last_session_date) [
    | inl none_seen ↦ rw (none_seen, end_session) (close_lots-Settled b k v)
    | inr (d, e) ↦ rw (e, end_session) (close_lots-Settled (with_equity d b) k v)
  ]

  empty_buffers-known :
      (ks : List String) (k : String) → contains k (empty_buffers ks) ≡ true → is_in k ks ≡ true
  unfolding empty_buffers get is_in
  empty_buffers-known [] k h = cc
  empty_buffers-known (j ∷ ks) k h = ground (arith, empty_buffers-known ks k)

  fresh-Keeps : Keeps c (new_baseline c)
  fresh-Keeps = record {
    unique = tt;
    followed = λ k h. absurd (unfold get in cc);
    priced = λ k h. absurd (unfold get in cc);
    known = empty_buffers-known c.rsi.universe;
  }

  fresh-Whole : pos 0 ≤ℤ c.rsi.max_positions → Whole start c (new_baseline c)
  fresh-Whole h =
      (record { balanced = unfold total realised in omega int_laws; fits = h }, λ e. refl)

  -- The state behind any bars of a run that goes on: cash and the cost of the lots are the capital and
  -- the profits of the trades; at most `max_positions` lots; the strategy has a holding for each lot.
  pub take_bars-Sound :
      (bars : List MinuteBar)
      → pos 0 ≤ℤ c.rsi.max_positions
      → OnOk
          (λ b.
            Same (b.cash +ℤ total lot_cost b.lots) (c.starting_capital_krw +ℤ realised b.trades)
            × (pos (length b.lots) ≤ℤ c.rsi.max_positions)
            × Within b.lots b.strategy.holdings)
          (take_bars c bars (new_baseline c))
  take_bars-Sound bars h =
      joined (take_bars c bars (new_baseline c))
        (take_bars-Keeps c bars (new_baseline c) fresh-Keeps)
        (take_bars-Whole start c bars (new_baseline c) (fresh-Whole h))
    where
      joined :
          (r : Result BaselineError Baseline)
          → OnOk (Keeps c) r
          → OnOk (Whole start c) r
          → OnOk
              (λ b.
                Same (b.cash +ℤ total lot_cost b.lots) (c.starting_capital_krw +ℤ realised b.trades)
                × (pos (length b.lots) ≤ℤ c.rsi.max_positions)
                × Within b.lots b.strategy.holdings)
              r
      joined (ok b) k v = (v.0.balanced, v.0.fits, k.followed)
      joined (err e) k v = tt

  -- At the end of a run no lot is left, and the cash is the capital and the profits of the trades.
  pub finished-Settled :
      (bars : List MinuteBar)
      → pos 0 ≤ℤ c.rsi.max_positions
      → OnOk (Settled c.starting_capital_krw) (finished c (take_bars c bars (new_baseline c)))
  finished-Settled bars h =
      joined (take_bars c bars (new_baseline c))
        (take_bars-Keeps c bars (new_baseline c) fresh-Keeps)
        (take_bars-Whole start c bars (new_baseline c) (fresh-Whole h))
    where
      joined :
          (r : Result BaselineError Baseline)
          → OnOk (Keeps c) r
          → OnOk (Whole start c) r
          → OnOk (Settled start) (finished c r)
      joined (ok b) k v = end_session-Settled b k v
      joined (err e) k v = tt
