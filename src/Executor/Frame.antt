-- ===== src/Executor/Frame.antt =====
-- execution/executor.py: what a predicate on lots, risk manager and noted events needs in order to
-- hold through the handling of signals: only a filled entry and a filled exit touch these four.
use korean_stock_trading_sys.Common.{
  not, ℕ, zero, suc, ◌+◌, inl, inr, Bool, true, false, Bool-cases, ℤ, Option, none, some, List, [],
  ◌∷◌, String, leb,
}
use korean_stock_trading_sys.Common.Dict.{Dict, get}
use korean_stock_trading_sys.Common.Exec.{Result, ok, err, gets, continue, ◌>>=◌}
use korean_stock_trading_sys.Clock.{Datetime}
use korean_stock_trading_sys.Costs.{CostError}
use korean_stock_trading_sys.Signal.{EntrySignal, ExitSignal, Signal, entry, exit}
use korean_stock_trading_sys.Risk.{RiskManager}
use korean_stock_trading_sys.Executor.{
  Outside, ExecutorConfig, ExecutorError, OpenLot, OrderTicket, PendingOrder, FillStatus, full,
  partial, unfilled, Executor, EntryEvent, ExitEvent, is_halted,
}
use korean_stock_trading_sys.Executor.Orders.{
  Method, retried, stop_or, on_pending, is_exceeded, cancel, conclude, unless_unfilled, if_full,
  only_if, request_entry, sell_lot, priced, poll, find_order, cancelled, resolve_fill, enter,
  order_entry, judged, handle_entry, lot_of, leave, halt_now, order_exit, handle_exit, handle,
  process_signals, available_cash, read_clock, do_sleep,
}

-- P where a method returns, Q where it raises.
abbrev pub Ends : {X E A : Type 0} (P Q : X → Type 0) → Result E A × X → Type 0
Ends P Q (ok _, x) = P x
Ends P Q (err _, x) = Q x

pub Ends-both : {X E A : Type 0} (P : X → Type 0) (r : Result E A × X) → Ends P P r → P r.1
Ends-both P (ok _, x) h = h
Ends-both P (err _, x) h = h

module _ (W S E : Type 0) (out : Outside W) (c : ExecutorConfig)
    (P Q : Dict OpenLot → RiskManager → List EntryEvent → List ExitEvent → Type 0)
    (weaken : (lots : Dict OpenLot) (m : RiskManager) (es : List EntryEvent) (xs : List ExitEvent)
      → P lots m es xs
      → Q lots m es xs) where
  abbrev pub M : Type 0 → Type 0
  M A = Method W S E out c A

  abbrev pub Holds : Executor W S → Type 0
  Holds x = P x.open_lots x.risk x.sweep_entry_events x.sweep_exit_events

  abbrev pub Rests : Executor W S → Type 0
  Rests x = Q x.open_lots x.risk x.sweep_entry_events x.sweep_exit_events

  pub record Safe {A : Type 0} (m : M A) : Type 0 where
    pub keep : (x : Executor W S) → Holds x → Ends Holds Rests (m x)

  pub ends :
      (A : Type 0) (r : Result (ExecutorError E) A) (x : Executor W S)
      → Holds x
      → Ends Holds Rests (r, x)
  ends A (ok a) x h = h
  ends A (err e) x h = weaken x.open_lots x.risk x.sweep_entry_events x.sweep_exit_events h

  pub kept : {A : Type 0} {m : M A} → ((x : Executor W S) → Holds x → Holds (m x).1) → Safe m
  kept {A} {m} h = record { keep = λ x v. ends A (m x).0 (m x).1 (h x v) }

  continued :
      (A B : Type 0) (r : Result (ExecutorError E) A) (x : Executor W S) (f : A → M B)
      → Ends Holds Rests (r, x)
      → ((a : A) → Safe (f a))
      → Ends Holds Rests (continue r f x)
  continued A B (ok a) x f h k = (k a).keep x h
  continued A B (err e) x f h k = h

  -- A sequence of methods of the executor.
  pub then_keeps :
      (A B : Type 0) (m : M A) (f : A → M B) → Safe m → ((a : A) → Safe (f a)) → Safe (m >>= f)
  then_keeps A B m f h k = record { keep = λ x v. continued A B (m x).0 (m x).1 f (h.keep x v) k }

  pub priced_keeps : (A : Type 0) (r : Result CostError A) → Safe (priced W S E out c r)
  priced_keeps A (ok a) = kept (λ x v. v)
  priced_keeps A (err e) = kept (λ x v. v)

  cancelled_keeps :
      (r : Result (ExecutorError E) (Unit {0})) (x : Executor W S)
      → Holds x
      → Holds (cancelled W S E out c (r, x)).1
  cancelled_keeps (ok a) x v = v
  cancelled_keeps (err e) x v = elim (Bool-cases (is_exceeded W S E out c e)) [
    | inl h ↦ rw h v
    | inr h ↦ rw h v
  ]

  on_pending_keeps :
      (deadline : ℕ) (again : M (Option PendingOrder)) (o : Option PendingOrder)
      → Safe again
      → Safe (on_pending W S E out c deadline again o)
  on_pending_keeps deadline again none h = kept (λ x v. v)
  on_pending_keeps deadline again (some p) h =
      then_keeps _ _ (read_clock W S E out c) _ (kept (λ x v. v)) λ now. stopping (leb deadline now)
    where
      stopping : (b : Bool) → Safe (stop_or W S E out c again p b)
      stopping true = kept (λ x v. v)
      stopping false = then_keeps _ _ (do_sleep W S E out c) (λ _. again) (kept (λ x v. v)) (λ _. h)

  poll_keeps : (fuel : ℕ) (n : String) (deadline : ℕ) → Safe (poll W S E out c fuel n deadline)
  unfolding poll
  poll_keeps zero n deadline = kept (λ x v. v)
  poll_keeps (suc fuel) n deadline =
      then_keeps _ _ (retried W S E out c out.get_pending_orders) _ (kept (λ x v. v)) λ pending.
        on_pending_keeps deadline (poll W S E out c fuel n deadline) (find_order n pending)
          (poll_keeps fuel n deadline)

  resolve_fill_keeps :
      (fuel : ℕ) (ticket : OrderTicket) → Safe (resolve_fill W S E out c fuel ticket)
  unfolding resolve_fill
  resolve_fill_keeps fuel ticket =
      then_keeps _ _ (read_clock W S E out c) _ (kept (λ x v. v)) λ begun.
        then_keeps _ _ (poll W S E out c fuel ticket.order_number (begun + c.order_fill_timeout)) _
          (poll_keeps fuel ticket.order_number _) concluding
    where
      concluding : (o : Option PendingOrder) → Safe (conclude W S E out c ticket o)
      concluding none = kept (λ x v. v)
      concluding (some p) =
          then_keeps _ _ (cancel W S E out c ticket) _
            (kept (λ x v.
              cancelled_keeps (retried W S E out c (out.cancel_order ticket.order_number) x).0 _ v))
            (λ _. kept (λ x v. v))

  module _ (now : Datetime)
      (enters : (s : EntrySignal) (ticket : OrderTicket) (qty : ℤ)
        → Safe (enter W S E out c s now ticket qty))
      (leaves : (s : ExitSignal) (lot : OpenLot) (ticket : OrderTicket)
        → Safe (leave W S E out c s now lot ticket)) where
    order_entry_keeps :
        (fuel : ℕ) (s : EntrySignal) (qty : ℤ) → Safe (order_entry W S E out c fuel s now qty)
    unfolding order_entry
    order_entry_keeps fuel s qty =
        then_keeps _ _ (retried W S E out c (out.submit_buy s.symbol qty)) _ (kept (λ x v. v))
          λ ticket.
            then_keeps _ _ (resolve_fill W S E out c fuel ticket) _ (resolve_fill_keeps fuel ticket)
              λ o.
                by_status o.status (enter W S E out c s now ticket o.filled_qty)
                  (enters s ticket o.filled_qty)
      where
        by_status : (f : FillStatus) (m : M Bool) → Safe m → Safe (unless_unfilled W S E out c f m)
        by_status full m h = h
        by_status partial m h = h
        by_status unfilled m h = kept (λ x v. v)

    only_if_keeps : (b : Bool) (m : M Bool) → Safe m → Safe (only_if W S E out c b m)
    only_if_keeps true m h = h
    only_if_keeps false m h = kept (λ x v. v)

    handle_entry_keeps : (fuel : ℕ) (s : EntrySignal) → Safe (handle_entry W S E out c fuel s now)
    unfolding handle_entry request_entry
    handle_entry_keeps fuel s = then_keeps _ _ (gets is_halted) _ (kept (λ x v. v)) λ halted.
        only_if_keeps (not halted) (request_entry W S E out c fuel s now) (
          then_keeps _ _ (retried W S E out c out.get_balance) _ (kept (λ x v. v)) λ balance.
            then_keeps _ _ (judged W S E out c s (available_cash c balance)) _
              (judged_keeps (available_cash c balance))
              λ d.
                only_if_keeps d.approved (order_entry W S E out c fuel s now d.qty)
                  (order_entry_keeps fuel s d.qty))
      where
        judged_keeps : (cash : ℤ) → Safe (judged W S E out c s cash)
        judged_keeps cash = kept (λ x v. unfold judged in v)

    order_exit_keeps :
        (fuel : ℕ) (s : ExitSignal) (lot : OpenLot) → Safe (order_exit W S E out c fuel s now lot)
    unfolding order_exit
    order_exit_keeps fuel s lot =
        then_keeps _ _ (retried W S E out c (out.submit_sell s.symbol lot.qty)) _ (kept (λ x v. v))
          λ ticket.
            then_keeps _ _ (resolve_fill W S E out c fuel ticket) _ (resolve_fill_keeps fuel ticket)
              λ o. by_status o.status (leave W S E out c s now lot ticket) (leaves s lot ticket)
      where
        by_status : (f : FillStatus) (m : M Bool) → Safe m → Safe (if_full W S E out c f m)
        by_status full m h = h
        by_status partial m h = kept (λ x v. unfold halt_now in v)
        by_status unfilled m h = kept (λ x v. unfold halt_now in v)

    handle_exit_keeps : (fuel : ℕ) (s : ExitSignal) → Safe (handle_exit W S E out c fuel s now)
    unfolding handle_exit
    handle_exit_keeps fuel s = record {
      keep = λ x v.
          (selling (lot_of (get s.symbol x.open_lots) (get s.symbol x.risk.active_positions))).keep
            x v;
    }
      where
        selling : (o : Option OpenLot) → Safe (sell_lot W S E out c fuel s now o)
        selling none = kept (λ x v. v)
        selling (some lot) = order_exit_keeps fuel s lot

    handle_keeps : (fuel : ℕ) (s : Signal) → Safe (handle W S E out c fuel now s)
    unfolding handle
    handle_keeps fuel (entry s) = handle_entry_keeps fuel s
    handle_keeps fuel (exit s) = handle_exit_keeps fuel s

    -- Handling signals, with every call outside as it may go.
    pub process_signals_keeps :
        (fuel : ℕ) (ss : List Signal) → Safe (process_signals W S E out c fuel now ss)
    unfolding process_signals
    process_signals_keeps fuel [] = kept (λ x v. v)
    process_signals_keeps fuel (s ∷ ss) =
        then_keeps _ _ (handle W S E out c fuel now s) _ (handle_keeps fuel s) λ done.
          then_keeps _ _ (process_signals W S E out c fuel now ss) _ (process_signals_keeps fuel ss)
            (λ n. kept (λ x v. v))
