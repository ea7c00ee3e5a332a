-- ===== src/Engine/Ledger.antt =====
-- backtest/engine.py: the books behind each of the handlers of signals.
use korean_stock_trading_sys.Common.{
  ◌≡◌, refl, inl, inr, sym, subst, Bool-cases, Option-cases, ℤ, ◌+ℤ◌, ltb_ℤ, int_laws, Same, Option,
  none, some, List, [], ◌∷◌,
}
use korean_stock_trading_sys.Common.Dict.{get, contains}
use korean_stock_trading_sys.Common.Totals.{total-put_new, total-remove}
use korean_stock_trading_sys.Common.Paired.{Paired-none, Paired-put, Paired-remove}
use korean_stock_trading_sys.Common.Exec.{Result, ok, err, Result-cases}
use korean_stock_trading_sys.Decimal.{of_int, mul, to_int}
use korean_stock_trading_sys.Signal.{EntrySignal, ExitSignal, Signal, entry, exit}
use korean_stock_trading_sys.Risk.{
  RiskError, RejectReason, RiskManager, evaluate_entry, record_entry, record_exit,
}
use korean_stock_trading_sys.Risk.Session.{
  Yields, filled, dropped, record_entry-Yields, record_exit-Yields,
}
use korean_stock_trading_sys.Costs.{buy_fill_price, buy_commission}
use korean_stock_trading_sys.Engine.{
  BacktestConfig, ActiveLot, Book, Handled, max_zero, lot_of, bought, recorded, pay, refuse,
  fill_entry, handle_entry, Sale, sale_of, trade_of, sold, exited, settle, handle_exit, handle,
  and_then, process_signals, close_signals,
}
use korean_stock_trading_sys.Engine.Books.{
  cost, invested, realised, realised-append, Synced, Matches,
}

-- From a capital `start`: cash and the cost of the open lots are the capital and the result of the
-- trades; the lots are the risk manager's positions; its total of the day is the change of cash and
-- cost since its session began.
pub record Sound (start : ℤ) (b : Book) : Type 0 where
  pub balanced : Same (b.cash +ℤ invested b.active) (start +ℤ realised b.trades)
  pub synced : Synced b.active b.risk.active_positions
  pub day :
      (base : ℤ)
      → b.risk.starting_capital_krw ≡ some base
      → Same (b.cash +ℤ invested b.active) (base +ℤ b.risk.daily_realized_pnl_krw)

module _ (start : ℤ) (E : Type 0) where
  recorded-Sound :
      (s : EntrySignal) (lot : ActiveLot) (b : Book) (o : Result RiskError (Unit {0}) × RiskManager)
      {P : Type 0}
      → (P → get s.symbol b.risk.active_positions ≡ none)
      → lot.symbol ≡ s.symbol
      → lot.entry_ts ≡ s.ts
      → Yields b.risk (filled s.symbol lot.entry_fill_price lot.qty s.ts b.risk) P o
      → Sound start b
      → Sound start (recorded {E = E} s lot b o).1
  unfolding recorded
  recorded-Sound s lot b (err e, risk) new hs ht y v =
      subst (λ m. Sound start (record b { risk = m })) (sym y) v
  recorded-Sound s lot b (ok _, risk) new hs ht y v =
      let fresh =
        Paired-none Matches s.symbol b.active b.risk.active_positions v.synced (new y.0) in
      let more = total-put_new cost s.symbol lot b.active fresh in
      subst (λ m. Sound start (bought s lot m b)) (sym y.1)
        (record {
          balanced = omega (int_laws, more, v.balanced);
          synced =
              Paired-put Matches s.symbol lot _ b.active b.risk.active_positions
                (hs, refl, refl, ht) v.synced;
          day = λ base h. omega (int_laws, more, v.day base h);
        })

  pay-Sound :
      (s : EntrySignal) (lot : ActiveLot) (b : Book)
      → lot.symbol ≡ s.symbol
      → lot.entry_ts ≡ s.ts
      → Sound start b
      → Sound start (pay {E = E} s lot b).1
  unfolding pay
  pay-Sound s lot b hs ht v = elim (Bool-cases (ltb_ℤ b.cash (cost lot))) [
    | inl late ↦ rw late (record { balanced = v.balanced; synced = v.synced; day = v.day })
    | inr paid ↦ rw paid (
        recorded-Sound s lot b (record_entry s.symbol lot.entry_fill_price lot.qty s.ts b.risk)
          (λ p. p.1) hs ht (record_entry-Yields s.symbol lot.entry_fill_price lot.qty s.ts b.risk)
          v)
  ]

  fill_entry-Sound :
      (c : BacktestConfig) (s : EntrySignal) (qty : ℤ) (b : Book)
      → Sound start b
      → Sound start (fill_entry {E = E} c s qty b).1
  unfolding fill_entry
  fill_entry-Sound c s qty b v = elim (Result-cases (buy_fill_price s.price c.slippage_rate)) [
    | inl (e, h) ↦ rw (h, fill_entry) v
    | inr (fill, h) ↦
        elim (Result-cases (buy_commission (mul fill (of_int qty)) c.commission_rate)) [
          | inl (e, h') ↦ rw (h, fill_entry) (rw h' v)
          | inr (commission, h') ↦
              rw (h, fill_entry)
                (rw h' (
                  pay-Sound s (lot_of s fill qty (to_int (mul fill (of_int qty))) commission) b refl
                    refl v))
        ]
  ]

  handle_entry-Sound :
      (c : BacktestConfig) (s : EntrySignal) (b : Book)
      → Sound start b
      → Sound start (handle_entry {E = E} c s b).1
  unfolding handle_entry
  handle_entry-Sound c s b v = elim (Result-cases (evaluate_entry b.risk s (max_zero b.cash))) [
    | inl (e, h) ↦ rw (h, handle_entry) v
    | inr (d, h) ↦ elim (Bool-cases d.approved) [
      | inl yea ↦ rw (h, handle_entry) (rw yea (fill_entry-Sound c s d.qty b v))
      | inr nay ↦ rw (h, handle_entry) (rw nay (refused d.reason))
    ]
  ]
    where
      refused : (r : Option RejectReason) → Sound start (refuse {E = E} s.symbol r b).1
      refused none = unfold refuse in v
      refused (some r) =
          unfold refuse in record { balanced = v.balanced; synced = v.synced; day = v.day }

  exited-Sound :
      (s : ExitSignal) (lot : ActiveLot) (sale : Sale) (b : Book)
      (o : Result RiskError (Unit {0}) × RiskManager) (P : Type 0)
      → get s.symbol b.active ≡ some lot
      → Yields b.risk (dropped s.symbol (trade_of s lot sale).net_pnl_krw b.risk) P o
      → Sound start b
      → Sound start (exited {E = E} s (trade_of s lot sale) sale b o).1
  unfolding exited
  exited-Sound s lot sale b (err e, risk) P held y v =
      subst (λ m. Sound start (record b { risk = m })) (sym y) v
  exited-Sound s lot sale b (ok _, risk) P held y v =
      let less = total-remove cost s.symbol lot b.active held in
      let more = realised-append b.trades (trade_of s lot sale) in
      subst (λ m. Sound start (sold s (trade_of s lot sale) sale m b)) (sym y.1)
        (record {
          balanced = omega (int_laws, less, more, v.balanced);
          synced = Paired-remove Matches s.symbol b.active b.risk.active_positions v.synced;
          day = λ base h. omega (int_laws, less, v.day base h);
        })

  handle_exit-Sound :
      (c : BacktestConfig) (s : ExitSignal) (b : Book)
      → Sound start b
      → Sound start (handle_exit {E = E} c s b).1
  unfolding handle_exit settle
  handle_exit-Sound c s b v = elim (Bool-cases (contains s.symbol b.phantom_longs)) [
    | inl phantom ↦
        rw (phantom, handle_exit) (record { balanced = v.balanced; synced = v.synced; day = v.day })
    | inr real ↦ elim (Option-cases (get s.symbol b.active)) [
      | inl h ↦ rw (real, handle_exit) (rw h v)
      | inr (lot, h) ↦ elim (Result-cases (sale_of c s.price lot.qty)) [
        | inl (e, h') ↦ rw (real, handle_exit) (rw h (rw h' v))
        | inr (sale, h') ↦
            rw (real, handle_exit)
              (rw h (
                rw h' (
                  exited-Sound s lot sale b
                    (record_exit s.symbol (trade_of s lot sale).net_pnl_krw b.risk) _ h
                    (record_exit-Yields s.symbol (trade_of s lot sale).net_pnl_krw b.risk) v)))
      ]
    ]
  ]

  -- Handling a signal, an entry or an exit that is approved, refused, absorbed or raises, keeps the
  -- books in order.
  pub handle-Sound :
      (c : BacktestConfig) (s : Signal) (b : Book)
      → Sound start b
      → Sound start (handle {E = E} c s b).1
  unfolding handle
  handle-Sound c (entry s) b v = handle_entry-Sound c s b v
  handle-Sound c (exit s) b v = handle_exit-Sound c s b v

  pub and_then-Sound :
      (f : Book → Handled E) (h : Handled E)
      → ((b : Book) → Sound start b → Sound start (f b).1)
      → Sound start h.1
      → Sound start (and_then f h).1
  and_then-Sound f (ok _, b) k v = k b v
  and_then-Sound f (err e, b) k v = v

  pub process_signals-Sound :
      (c : BacktestConfig) (ss : List Signal) (b : Book)
      → Sound start b
      → Sound start (process_signals {E = E} c ss b).1
  unfolding process_signals
  process_signals-Sound c [] b v = v
  process_signals-Sound c (s ∷ ss) b v =
      and_then-Sound (process_signals c ss) (handle c s b) (process_signals-Sound c ss)
        (handle-Sound c s b v)

  pub close_signals-Sound :
      (c : BacktestConfig) (ss : List Signal) (b : Book)
      → Sound start b
      → Sound start (close_signals {E = E} c ss b).1
  unfolding close_signals
  close_signals-Sound c [] b v = v
  close_signals-Sound c (entry s ∷ ss) b v = v
  close_signals-Sound c (exit s ∷ ss) b v =
      and_then-Sound (close_signals c ss) (handle_exit c s b) (close_signals-Sound c ss)
        (handle_exit-Sound c s b v)
