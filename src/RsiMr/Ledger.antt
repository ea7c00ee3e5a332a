-- ===== src/RsiMr/Ledger.antt =====
-- backtest/rsi_mr.py: cash, lots and trades behind each step of the simulation.
use korean_stock_trading_sys.Common.{
  leb_false→lt, ap, is_some, ◌+◌, ◌≡◌, inl, inr, false, Bool-cases, Option-cases, none, ℤ, pos,
  ◌+ℤ◌, ◌-ℤ◌, ltb_ℤ, leb_ℤ, ◌≤ℤ◌, int_laws, Same, List, [], ◌∷◌, length, arith,
}
use korean_stock_trading_sys.Common.Totals.{total, total-put_new, total-remove}
use korean_stock_trading_sys.Common.Dict.{Dict, get, put, length-remove, length-put_new}
use korean_stock_trading_sys.Common.Exec.{Result, ok, err}
use korean_stock_trading_sys.Decimal.{Decimal, div, mul, add, of_nat, to_int, not_positive}
use korean_stock_trading_sys.Signal.{EntrySignal, ExitSignal}
use korean_stock_trading_sys.Engine.{TradeRecord}
use korean_stock_trading_sys.Engine.Books.{realised, realised-append}
use korean_stock_trading_sys.RsiMr.Baseline.{
  BaselineConfig, BaselineError, BaselineLot, Baseline, lot_cost, holds, bought_lot, buy_lot,
  attempt_buy, execute_exit, sell_one, sell_all, share, held_by, buy_one, buy_all, and_then,
}

-- What a result that is no error satisfies.
abbrev pub OnOk : (Baseline → Type 0) → Result BaselineError Baseline → Type 0
OnOk P (ok b) = P b
OnOk P (err e) = Unit

-- The rest of a loop behind one step.
pub and_then-OnOk :
    (P : Baseline → Type 0) (f : Baseline → Result BaselineError Baseline)
    (r : Result BaselineError Baseline)
    → ((b : Baseline) → P b → OnOk P (f b))
    → OnOk P r
    → OnOk P (and_then f r)
and_then-OnOk P f (ok b) h p = h b p
and_then-OnOk P f (err e) h p = tt

-- From a capital `start`: cash and the cost of the lots are the capital and the result of the trades;
-- no more lots than places.
pub record Sound (start places cash : ℤ) (lots : Dict BaselineLot) (trades : List TradeRecord)
    : Type 0 where
  pub balanced : Same (cash +ℤ total lot_cost lots) (start +ℤ realised trades)
  pub fits : pos (length lots) ≤ℤ places

module _ (start : ℤ) (c : BaselineConfig) where
  abbrev pub IsSound : Baseline → Type 0
  IsSound b = Sound start c.rsi.max_positions b.cash b.lots b.trades

  -- A sale moves the lot's cost and the trade's result into the cash.
  pub execute_exit-Same :
      (cash : ℤ) (lot : BaselineLot) (s : ExitSignal)
      → Same
          (execute_exit c cash lot s).0
          (cash +ℤ (lot_cost lot +ℤ (execute_exit c cash lot s).1.net_pnl_krw))
  unfolding execute_exit
  execute_exit-Same cash lot s = omega int_laws

  sell_one-IsSound : (s : ExitSignal) (b : Baseline) → IsSound b → IsSound (sell_one c s b)
  unfolding sell_one
  sell_one-IsSound s b v = elim (Option-cases (get s.symbol b.lots)) [
    | inl free ↦ rw (free, sell_one) v
    | inr (lot, held) ↦
        rw (held, sell_one)
          (record {
            balanced = omega (
              int_laws,
              v.balanced,
              execute_exit-Same b.cash lot s,
              total-remove lot_cost s.symbol lot b.lots held,
              realised-append b.trades (execute_exit c b.cash lot s).1,
            );
            fits = omega (arith, v.fits, length-remove s.symbol b.lots (ap is_some held));
          })
  ]

  pub sell_all-IsSound :
      (ss : List ExitSignal) (b : Baseline) → IsSound b → IsSound (sell_all c ss b)
  unfolding sell_all
  sell_all-IsSound [] b v = v
  sell_all-IsSound (s ∷ ss) b v = sell_all-IsSound ss (sell_one c s b) (sell_one-IsSound s b v)

  -- A purchase is paid in full.
  holds-IsSound :
      (s : EntrySignal) (lot : BaselineLot) (b : Baseline)
      → get s.symbol b.lots ≡ none
      → leb_ℤ (c.rsi.max_positions -ℤ pos (length b.lots)) (pos 0) ≡ false
      → IsSound b
      → IsSound (holds s b (buy_lot b.cash lot))
  unfolding buy_lot
  holds-IsSound s lot b new free v = elim (Bool-cases (leb_ℤ lot.qty (pos 0))) [
    | inl nothing ↦ rw (nothing, buy_lot) v
    | inr some_qty ↦ elim (Bool-cases (ltb_ℤ b.cash (lot_cost lot))) [
      | inl dear ↦ rw (some_qty, buy_lot) (rw dear v)
      | inr paid ↦
          rw (some_qty, buy_lot)
            (rw paid (record {
              balanced =
                  omega (int_laws, v.balanced, total-put_new lot_cost s.symbol lot b.lots new);
              fits = place_left (length-put_new s.symbol lot b.lots new);
            }))
    ]
  ]
    where
      place_left :
          length (put s.symbol lot b.lots) ≡ length b.lots + 1
          → pos (length (put s.symbol lot b.lots)) ≤ℤ c.rsi.max_positions
      place_left e = omega (int_laws, e, leb_false→lt _ _ free)

  attempt_buy-IsSound :
      (s : EntrySignal) (alloc : Decimal) (b : Baseline)
      → get s.symbol b.lots ≡ none
      → leb_ℤ (c.rsi.max_positions -ℤ pos (length b.lots)) (pos 0) ≡ false
      → IsSound b
      → OnOk IsSound (held_by s b (attempt_buy c b.cash s alloc))
  unfolding attempt_buy
  attempt_buy-IsSound s alloc b new free v =
      let fill = mul s.price (add (of_nat 1) c.slippage_rate) in
      elim (Bool-cases (not_positive fill)) [
        | inl bad ↦ rw (bad, attempt_buy) v
        | inr good ↦ elim (Option-cases (div alloc fill)) [
          | inl e ↦ rw (good, attempt_buy) (rw e tt)
          | inr (q, e) ↦
              rw (good, attempt_buy)
                (rw e (holds-IsSound s (bought_lot c s fill (to_int q)) b new free v))
        ]
      ]

  buy_one-IsSound : (s : EntrySignal) (b : Baseline) → IsSound b → OnOk IsSound (buy_one c s b)
  unfolding buy_one
  buy_one-IsSound s b v = elim (Option-cases (get s.symbol b.lots)) [
    | inr (lot, held) ↦ rw (held, buy_one) v
    | inl new ↦ elim (Bool-cases (leb_ℤ (c.rsi.max_positions -ℤ pos (length b.lots)) (pos 0))) [
      | inl full ↦ rw (new, buy_one) (rw full v)
      | inr free ↦ elim (Option-cases (share c b)) [
        | inl e ↦ rw (new, buy_one) (rw free (rw e tt))
        | inr (alloc, e) ↦
            rw (new, buy_one) (rw free (rw e (attempt_buy-IsSound s alloc b new free v)))
      ]
    ]
  ]

  pub buy_all-IsSound :
      (ss : List EntrySignal) (b : Baseline) → IsSound b → OnOk IsSound (buy_all c ss b)
  unfolding buy_all
  buy_all-IsSound [] b v = v
  buy_all-IsSound (s ∷ ss) b v =
      and_then-OnOk IsSound (buy_all c ss) (buy_one c s b) (buy_all-IsSound ss)
        (buy_one-IsSound s b v)
