-- ===== src/Main/Sweeps.antt =====
-- execution/executor.py: a sweep that returns has noted an event for every fill.
use korean_stock_trading_sys.Common.{
  ℕ, ◌≡◌, refl, sym, subst, inl, inr, Bool, true, false, Bool-cases, ℤ, List, [], ◌∷◌, ◌++◌, arith,
}
use korean_stock_trading_sys.Common.Dict.{Dict, contains, put, remove}
use korean_stock_trading_sys.Common.Exec.{Result, ok, err, modify, ◌>>◌}
use korean_stock_trading_sys.Clock.{Datetime, is_naive}
use korean_stock_trading_sys.Symbol.{full_match}
use korean_stock_trading_sys.Costs.{buy_fill_price, sell_fill_price}
use korean_stock_trading_sys.Signal.{EntrySignal, ExitSignal}
use korean_stock_trading_sys.Risk.{RiskError, RiskManager, record_entry, record_exit}
use korean_stock_trading_sys.Risk.Session.{
  Yields, filled, dropped, record_entry-Yields, record_exit-Yields,
}
use korean_stock_trading_sys.Executor.{
  Outside, ExecutorConfig, ExecutorError, Fault, OpenLot, OrderTicket, Executor, EntryEvent,
  ExitEvent,
}
use korean_stock_trading_sys.Executor.Orders.{
  entry_event, exit_event, entry_event_ok, exit_event_ok, Method, once, on_risk, priced, note_entry,
  note_exit, enter, leave, compute_net_pnl,
}
use korean_stock_trading_sys.Executor.Frame.{
  Ends, Safe, Holds, Rests, kept, then_keeps, priced_keeps,
}
use korean_stock_trading_sys.Storage.{open_row_ok}
use korean_stock_trading_sys.Storage.Replay.{position_of}
use korean_stock_trading_sys.Main.Noted.{Book, Noted, purchase-Noted, sale-Noted}

-- After a raise nothing is claimed.
abbrev pub Anything : Dict OpenLot → RiskManager → List EntryEvent → List ExitEvent → Type 0
Anything lots m es xs = Unit {0}

-- An event that passes its check, of a symbol that the risk manager takes, can be read back.
readable_entry :
    (e : EntryEvent)
    → full_match e.symbol ≡ true
    → entry_event_ok e ≡ true
    → (is_naive e.timestamp ≡ false) × (open_row_ok (position_of e) ≡ true)
unfolding open_row_ok
readable_entry e m h = ground arith

aware_exit : (x : ExitEvent) → exit_event_ok x ≡ true → is_naive x.timestamp ≡ false
aware_exit x h = ground arith

module _ (W S E : Type 0) (out : Outside W) (c : ExecutorConfig) (d : Book) (n : ℕ) (z : ℤ)
    (now : Datetime) where
  abbrev pub InBook : Dict OpenLot → RiskManager → List EntryEvent → List ExitEvent → Type 0
  InBook = Noted d n z now

  abbrev pub Books : {A : Type 0} → Method W S E out c A → Type 0
  Books m = Safe W S E out c InBook Anything (λ lots m es xs v. tt) m

  abbrev Done : {A : Type 0} → Result (ExecutorError E) A × Executor W S → Type 0
  Done =
      Ends (Holds W S E out c InBook Anything (λ lots m es xs v. tt))
        (Rests W S E out c InBook Anything (λ lots m es xs v. tt))

  entered :
      (e : EntryEvent) (lot : OpenLot) (rest : Method W S E out c Bool) (x : Executor W S)
      (o : Result RiskError (Unit {0}) × RiskManager) (Q : Type 0)
      → (lot.qty ≡ e.qty) × (lot.entry_price ≡ e.fill_price)
      → e.timestamp ≡ now
      → Books rest
      → Yields x.risk (filled e.symbol e.fill_price e.qty now x.risk) Q o
      → (Q → full_match e.symbol ≡ true)
      → InBook x.open_lots x.risk x.sweep_entry_events x.sweep_exit_events
      → Done (
          (on_risk W S E out c (λ _. o)
              >> (modify (λ x. record x { open_lots = put e.symbol lot x.open_lots })
                  >> (note_entry W S E out c e >> rest)))
            x)
  entered e lot rest x (err a, m) Q agree at h y six v = tt
  entered e lot rest x (ok a, m) Q agree at h y six v = elim (Bool-cases (entry_event_ok e)) [
    | inr bad ↦ rw bad tt
    | inl good ↦
        let read = readable_entry e (six y.0) good in
        rw good (
          h.keep
            (record x {
              risk = m;
              open_lots = put e.symbol lot x.open_lots;
              sweep_entry_events = x.sweep_entry_events ++ (e ∷ []);
            })
            (subst
              (λ (m : RiskManager).
                InBook (put e.symbol lot x.open_lots) m (x.sweep_entry_events ++ (e ∷ []))
                  x.sweep_exit_events)
              (sym y.1) (purchase-Noted v e lot now agree (at, read.0, read.1))))
  ]

  pub enters :
      (s : EntrySignal) (ticket : OrderTicket) (qty : ℤ)
      → Books (enter W S E out c s now ticket qty)
  unfolding enter
  enters s ticket qty =
      then_keeps W S E out c InBook Anything (λ lots m es xs v. tt) _ _
        (priced W S E out c (buy_fill_price s.price c.slippage_rate)) _
        (priced_keeps W S E out c InBook Anything (λ lots m es xs v. tt) _ _)
        λ fill. record {
          keep = λ x v.
              entered (entry_event s fill qty now ticket)
                (record { entry_price = fill; qty = qty; stop_price = s.stop_price })
                (once W S E out c (out.subscribe s.symbol) >> (λ x. (ok true, x))) x
                (record_entry s.symbol fill qty now x.risk) _ (refl, refl) refl
                (then_keeps W S E out c InBook Anything (λ lots m es xs v. tt) _ _
                  (once W S E out c (out.subscribe s.symbol)) _
                  (kept W S E out c InBook Anything (λ lots m es xs v. tt) (λ x v. v))
                  (λ _. kept W S E out c InBook Anything (λ lots m es xs v. tt) (λ x v. v)))
                (record_entry-Yields s.symbol fill qty now x.risk) (λ q. q.0) v;
        }

  -- Behind the removal of the lot.
  sold_lot :
      (e : ExitEvent) (y : Executor W S) (o : Result Fault (Unit {0}) × W)
      → (exit_event_ok e ≡ true
          → InBook y.open_lots y.risk y.sweep_entry_events (y.sweep_exit_events ++ (e ∷ [])))
      → Done ((once W S E out c (λ _. o) >> (note_exit W S E out c e >> (λ x. (ok true, x)))) y)
  sold_lot e y (err a, w) h = tt
  sold_lot e y (ok a, w) h = elim (Bool-cases (exit_event_ok e)) [
    | inr bad ↦ rw bad tt
    | inl good ↦ rw good (h good)
  ]

  left :
      (e : ExitEvent) (x : Executor W S) (o : Result RiskError (Unit {0}) × RiskManager)
      → e.timestamp ≡ now
      → Yields x.risk
          (dropped e.symbol e.net_pnl_krw x.risk)
          (contains e.symbol x.risk.active_positions ≡ true)
          o
      → InBook x.open_lots x.risk x.sweep_entry_events x.sweep_exit_events
      → Done (
          (on_risk W S E out c (λ _. o)
              >> (modify (λ x. record x { open_lots = remove e.symbol x.open_lots })
                  >> (once W S E out c (out.unsubscribe e.symbol)
                      >> (note_exit W S E out c e >> (λ x. (ok true, x))))))
            x)
  left e x (err a, m) at y v = tt
  left e x (ok a, m) at y v =
      sold_lot e (record x { risk = m; open_lots = remove e.symbol x.open_lots })
        (out.unsubscribe e.symbol x.world)
        λ good.
          subst
            (λ (m : RiskManager).
              InBook (remove e.symbol x.open_lots) m x.sweep_entry_events
                (x.sweep_exit_events ++ (e ∷ [])))
            (sym y.1) (sale-Noted v e y.0 (at, aware_exit e good))

  pub leaves :
      (s : ExitSignal) (lot : OpenLot) (ticket : OrderTicket)
      → Books (leave W S E out c s now lot ticket)
  unfolding leave
  leaves s lot ticket =
      then_keeps W S E out c InBook Anything (λ lots m es xs v. tt) _ _
        (priced W S E out c (sell_fill_price s.price c.slippage_rate)) _
        (priced_keeps W S E out c InBook Anything (λ lots m es xs v. tt) _ _)
        λ fill.
          then_keeps W S E out c InBook Anything (λ lots m es xs v. tt) _ _
            (priced W S E out c (compute_net_pnl c lot.entry_price fill lot.qty)) _
            (priced_keeps W S E out c InBook Anything (λ lots m es xs v. tt) _ _)
            λ pnl. record {
              keep = λ x v.
                  left (exit_event s lot fill pnl now ticket) x (record_exit s.symbol pnl x.risk)
                    refl (record_exit-Yields s.symbol pnl x.risk) v;
            }
