-- ===== src/Executor/InSync.antt =====
-- execution/executor.py: the executor's open lots and the risk manager's positions.
use korean_stock_trading_sys.Common.{
  ◌≡◌, refl, inl, inr, sym, subst, Bool, Bool-cases, ℤ, List, String,
}
use korean_stock_trading_sys.Common.Dict.{Dict, put, remove}
use korean_stock_trading_sys.Common.Paired.{Paired, Paired-put, Paired-remove}
use korean_stock_trading_sys.Common.Exec.{Result, ok, err, Exec, continue, modify, ◌>>=◌, ◌>>◌}
use korean_stock_trading_sys.Decimal.{Decimal}
use korean_stock_trading_sys.Clock.{Datetime}
use korean_stock_trading_sys.Costs.{CostError, buy_fill_price, sell_fill_price}
use korean_stock_trading_sys.Signal.{EntrySignal, ExitSignal}
use korean_stock_trading_sys.Risk.{
  RiskError, PositionRecord, RiskManager, record_entry, record_exit,
}
use korean_stock_trading_sys.Risk.Session.{
  Yields, filled, dropped, record_entry-Yields, record_exit-Yields,
}
use korean_stock_trading_sys.Executor.{
  Outside, ExecutorConfig, ExecutorError, OpenLot, OrderTicket, Executor, EntryEvent, ExitEvent,
}
use korean_stock_trading_sys.Executor.Orders.{
  entry_event, exit_event, entry_event_ok, exit_event_ok, Method, once, on_risk, priced, note_entry,
  note_exit, enter, leave, compute_net_pnl,
}

abbrev pub Matches : OpenLot → PositionRecord → Type 0
Matches lot p = (lot.qty ≡ p.qty) × (lot.entry_price ≡ p.entry_price)

-- The lots and the positions are of the same symbols, with the same quantities and prices.
abbrev pub InSync : {W S : Type 0} → Executor W S → Type 0
InSync x = Paired Matches x.open_lots x.risk.active_positions

-- The same of the parts of an executor, whatever events it has noted.
abbrev pub Synced : Dict OpenLot → RiskManager → List EntryEvent → List ExitEvent → Type 0
Synced lots m es xs = Paired Matches lots m.active_positions

-- A method keeps P, whether it returns or raises.
pub record Keeps {X E A : Type 0} (P : X → Type 0) (m : Exec X E A) : Type 0 where
  pub keep : (x : X) → P x → P (m x).1

abbrev pub kept :
    {X E A : Type 0} {P : X → Type 0} {m : Exec X E A} → ((x : X) → P x → P (m x).1) → Keeps P m
kept h = record { keep = h }

pub continue_keeps :
    (X E A B : Type 0) (P : X → Type 0) (r : Result E A) (x : X) (f : A → Exec X E B)
    → P x
    → ((a : A) → Keeps P (f a))
    → P (continue r f x).1
continue_keeps X E A B P (ok a) x f h k = (k a).keep x h
continue_keeps X E A B P (err e) x f h k = h

pub bind_keeps :
    (X E A B : Type 0) (P : X → Type 0) (m : Exec X E A) (f : A → Exec X E B)
    → Keeps P m
    → ((a : A) → Keeps P (f a))
    → Keeps P (m >>= f)
bind_keeps X E A B P m f h k =
    kept (λ x v. continue_keeps X E A B P (m x).0 (m x).1 f (h.keep x v) k)

module _ (W S E : Type 0) (out : Outside W) (c : ExecutorConfig) where
  abbrev M : Type 0 → Type 0
  M A = Method W S E out c A

  -- A sequence of methods of the executor.
  then_keeps :
      (A B : Type 0) (m : M A) (f : A → M B)
      → Keeps InSync m
      → ((a : A) → Keeps InSync (f a))
      → Keeps InSync (m >>= f)
  then_keeps A B m f h k = bind_keeps (Executor W S) (ExecutorError E) A B InSync m f h k

  priced_keeps : (A : Type 0) (r : Result CostError A) → Keeps InSync (priced W S E out c r)
  priced_keeps A (ok a) = kept (λ x v. v)
  priced_keeps A (err e) = kept (λ x v. v)

  note_entry_keeps : (e : EntryEvent) → Keeps InSync (note_entry W S E out c e)
  note_entry_keeps e =
      kept λ x v. elim (Bool-cases (entry_event_ok e)) [ inl h ↦ rw h v | inr h ↦ rw h v ]

  note_exit_keeps : (e : ExitEvent) → Keeps InSync (note_exit W S E out c e)
  note_exit_keeps e =
      kept λ x v. elim (Bool-cases (exit_event_ok e)) [ inl h ↦ rw h v | inr h ↦ rw h v ]

  -- `record_entry` and the new lot, with what comes behind them.
  entered_keeps :
      (k : String) (price : Decimal) (qty : ℤ) (ts : Datetime) (lot : OpenLot) (rest : M Bool)
      (x : Executor W S) (o : Result RiskError (Unit {0}) × RiskManager) (Q : Type 0)
      → (lot.qty ≡ qty) × (lot.entry_price ≡ price)
      → Keeps InSync rest
      → Yields x.risk (filled k price qty ts x.risk) Q o
      → InSync x
      → InSync
          ((on_risk W S E out c (λ _. o)
              >> (modify (λ x. record x { open_lots = put k lot x.open_lots }) >> rest))
            x).1
  entered_keeps k price qty ts lot rest x (err e, m) Q agree h y v =
      subst (λ m. Paired Matches x.open_lots m.active_positions) (sym y) v
  entered_keeps k price qty ts lot rest x (ok _, m) Q agree h y v =
      h.keep (record x { risk = m; open_lots = put k lot x.open_lots })
        (subst (λ m. Paired Matches (put k lot x.open_lots) m.active_positions) (sym y.1)
          (Paired-put Matches k lot _ x.open_lots x.risk.active_positions agree v))

  left_keeps :
      (k : String) (pnl : ℤ) (rest : M Bool) (x : Executor W S)
      (o : Result RiskError (Unit {0}) × RiskManager) (Q : Type 0)
      → Keeps InSync rest
      → Yields x.risk (dropped k pnl x.risk) Q o
      → InSync x
      → InSync
          ((on_risk W S E out c (λ _. o)
              >> (modify (λ x. record x { open_lots = remove k x.open_lots }) >> rest))
            x).1
  left_keeps k pnl rest x (err e, m) Q h y v =
      subst (λ m. Paired Matches x.open_lots m.active_positions) (sym y) v
  left_keeps k pnl rest x (ok _, m) Q h y v =
      h.keep (record x { risk = m; open_lots = remove k x.open_lots })
        (subst (λ m. Paired Matches (remove k x.open_lots) m.active_positions) (sym y.1)
          (Paired-remove Matches k x.open_lots x.risk.active_positions v))

  pub enter_keeps :
      (s : EntrySignal) (now : Datetime) (ticket : OrderTicket) (qty : ℤ)
      → Keeps InSync (enter W S E out c s now ticket qty)
  unfolding enter
  enter_keeps s now ticket qty =
      then_keeps _ _ (priced W S E out c (buy_fill_price s.price c.slippage_rate)) _
        (priced_keeps _ _)
        λ fill. kept λ x v.
          entered_keeps s.symbol fill qty now
            (record { entry_price = fill; qty = qty; stop_price = s.stop_price }) _ x
            (record_entry s.symbol fill qty now x.risk) _ (refl, refl)
            (then_keeps _ _ (note_entry W S E out c (entry_event s fill qty now ticket)) _
              (note_entry_keeps (entry_event s fill qty now ticket))
              (λ _.
                then_keeps _ _ (once W S E out c (out.subscribe s.symbol)) _ (kept (λ x v. v))
                  (λ _. kept (λ x v. v))))
            (record_entry-Yields s.symbol fill qty now x.risk) v

  pub leave_keeps :
      (s : ExitSignal) (now : Datetime) (lot : OpenLot) (ticket : OrderTicket)
      → Keeps InSync (leave W S E out c s now lot ticket)
  unfolding leave
  leave_keeps s now lot ticket =
      then_keeps _ _ (priced W S E out c (sell_fill_price s.price c.slippage_rate)) _
        (priced_keeps _ _)
        λ fill.
          then_keeps _ _ (priced W S E out c (compute_net_pnl c lot.entry_price fill lot.qty)) _
            (priced_keeps _ _)
            λ pnl. kept λ x v.
              left_keeps s.symbol pnl _ x (record_exit s.symbol pnl x.risk) _
                (then_keeps _ _ (once W S E out c (out.unsubscribe s.symbol)) _ (kept (λ x v. v))
                  (λ _.
                    then_keeps _ _ (note_exit W S E out c (exit_event s lot fill pnl now ticket)) _
                      (note_exit_keeps (exit_event s lot fill pnl now ticket))
                      (λ _. kept (λ x v. v))))
                (record_exit-Yields s.symbol pnl x.risk) v
