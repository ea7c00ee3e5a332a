-- ===== src/Executor/Orders.antt =====
-- execution/executor.py: `_resolve_fill`, `_handle_entry`, `_handle_exit` and what they call.
use korean_stock_trading_sys.Common.{
  ℕ, zero, suc, ◌+◌, Bool, true, false, not, ◌&&◌, ℤ, pos, leb_ℤ, ltb_ℤ, ◌-ℤ◌, leb, Option, none,
  some, List, [], ◌∷◌, ◌++◌, String, if◌then◌else◌,
}
use text.Mathlib.Text.{◌==◌}
use korean_stock_trading_sys.Common.Dict.{get, put, remove}
use korean_stock_trading_sys.Common.Exec.{
  Result, ok, err, Exec, pure, raise, gets, modify, ◌>>=◌, ◌>>◌,
}
use korean_stock_trading_sys.Decimal.{
  Decimal, of_int, of_nat, mul, sub, to_int, not_positive, literal,
}
use korean_stock_trading_sys.Clock.{Datetime, is_naive}
use korean_stock_trading_sys.Signal.{EntrySignal, ExitSignal, Signal, entry, exit}
use korean_stock_trading_sys.Costs.{
  CostError, buy_fill_price, sell_fill_price, buy_commission, sell_commission, sell_tax,
}
use korean_stock_trading_sys.Risk.{
  RiskError, RiskManager, PositionRecord, RiskDecision, evaluate_entry, record_entry, record_exit,
}
use korean_stock_trading_sys.Engine.{max_zero}
use korean_stock_trading_sys.Executor.{
  OrderTicket, PendingOrder, BalanceSnapshot, Fault, Outside, ExecutorConfig, ExecutorError,
  backoff_exceeded, missing_entry, not_filled, bad_event, bad_outcome, poll_unfinished, fault,
  other_fault, risk_error, cost_error, OpenLot, EntryEvent, ExitEvent, FillStatus, full, partial,
  unfilled, FillOutcome, Executor, is_halted, exceeded, passed_on, with_backoff,
}

-- `_compute_net_pnl`
unfoldable pub compute_net_pnl : ExecutorConfig → Decimal → Decimal → ℤ → Result CostError ℤ
compute_net_pnl c entry_price exit_price qty =
    let buy_notional = mul entry_price (of_int qty) in
    let sell_notional = mul exit_price (of_int qty) in
    elim (buy_commission buy_notional c.commission_rate) [
      | err e ↦ err e
      | ok b ↦ elim (sell_commission sell_notional c.commission_rate) [
        | err e ↦ err e
        | ok s ↦ elim (sell_tax sell_notional c.sell_tax_rate) [
          | err e ↦ err e
          | ok tax ↦ ok (to_int sell_notional -ℤ to_int buy_notional -ℤ b -ℤ s -ℤ tax)
        ]
      ]
    ]

-- The status that the executor gives a filled quantity, and the check of `_FillOutcome`.
abbrev pub status_of : ℤ → ℤ → FillStatus
status_of filled qty =
    if leb_ℤ qty filled then full else if ltb_ℤ (pos 0) filled then partial else unfilled

abbrev pub is_consistent : FillOutcome → Bool
is_consistent o = elim o.status [
  | full ↦ leb_ℤ (pos 0) o.filled_qty
  | partial ↦ ltb_ℤ (pos 0) o.filled_qty
  | unfilled ↦ leb_ℤ (pos 0) o.filled_qty && leb_ℤ o.filled_qty (pos 0)
]

-- `next((p for p in pending if p.order_number == ...), None)`
unfoldable pub find_order : String → List PendingOrder → Option PendingOrder
find_order n [] = none
find_order n (p ∷ ps) = let rest = find_order n ps in if p.order_number == n then some p else rest

-- The checks of `EntryEvent` and `ExitEvent`.
abbrev pub entry_event_ok : EntryEvent → Bool
entry_event_ok e =
    not (e.order_number == "")
    && not (is_naive e.timestamp)
    && ltb_ℤ (pos 0) e.qty
    && not (not_positive e.fill_price)
    && not (not_positive e.ref_price)

abbrev pub exit_event_ok : ExitEvent → Bool
exit_event_ok e =
    not (e.order_number == "")
    && not (is_naive e.timestamp)
    && ltb_ℤ (pos 0) e.qty
    && not (not_positive e.fill_price)

-- The lot to sell: the executor's own, else one made from the risk manager's position.
abbrev pub lot_of : Option OpenLot → Option PositionRecord → Option OpenLot
lot_of (some lot) _ = some lot
lot_of none (some p) =
    some (record { entry_price = p.entry_price; qty = p.qty; stop_price = literal 0 0 })
lot_of none none = none

-- `max(0, int(Decimal(balance.withdrawable) * (Decimal("1") - cash_buffer_pct)))`
abbrev pub available_cash : ExecutorConfig → BalanceSnapshot → ℤ
available_cash c b =
    max_zero (to_int (mul (of_int b.withdrawable) (sub (of_nat 1) c.cash_buffer_pct)))

abbrev pub entry_event : EntrySignal → Decimal → ℤ → Datetime → OrderTicket → EntryEvent
entry_event s fill qty now ticket = record {
  symbol = s.symbol;
  qty = qty;
  fill_price = fill;
  ref_price = s.price;
  timestamp = now;
  order_number = ticket.order_number;
}

abbrev pub exit_event : ExitSignal → OpenLot → Decimal → ℤ → Datetime → OrderTicket → ExitEvent
exit_event s lot fill net_pnl now ticket = record {
  symbol = s.symbol;
  qty = lot.qty;
  fill_price = fill;
  reason = s.reason;
  net_pnl_krw = net_pnl;
  timestamp = now;
  order_number = ticket.order_number;
}

module _ (W S E : Type 0) (out : Outside W) (c : ExecutorConfig) where
  abbrev pub Method : Type 0 → Type 0
  Method A = Exec (Executor W S) (ExecutorError E) A

  -- A call outside, once.
  abbrev pub once : {A : Type 0} → (W → Result Fault A × W) → Method A
  once f x =
      let (r, w) = f x.world in
      (elim r [ ok a ↦ ok a | err e ↦ err (fault e) ], record x { world = w })

  -- A call outside with `_with_backoff`.
  abbrev pub retried : {A : Type 0} → (W → Result Fault A × W) → Method A
  retried f x =
      let (r, w) = with_backoff out c.backoff_initial f c.backoff_max_attempts 0 x.world in
      (
        elim r [
          | ok a ↦ ok a
          | err e ↦ err (elim e [ exceeded ↦ backoff_exceeded | passed_on ↦ fault other_fault ])
        ],
        record x { world = w },
      )

  -- `self._risk_manager.record_...`
  abbrev pub on_risk : (RiskManager → Result RiskError (Unit {0}) × RiskManager) → Method (Unit {0})
  on_risk f x =
      let (r, m) = f x.risk in
      (elim r [ ok a ↦ ok a | err e ↦ err (risk_error e) ], record x { risk = m })

  abbrev pub priced : {A : Type 0} → Result CostError A → Method A
  priced (ok a) x = (ok a, x)
  priced (err e) x = (err (cost_error e), x)

  abbrev pub read_clock : Method ℕ
  read_clock x = let (t, w) = out.clock x.world in (ok t, record x { world = w })

  abbrev pub do_sleep : Method (Unit {0})
  do_sleep x = (ok tt, record x { world = out.sleep c.order_poll_interval x.world })

  -- At the deadline the last record is the answer, else the loop goes on.
  abbrev pub stop_or :
      Method (Option PendingOrder) → PendingOrder → Bool → Method (Option PendingOrder)
  stop_or again p true = pure (some p)
  stop_or again p false = do_sleep >> again

  abbrev pub on_pending :
      ℕ → Method (Option PendingOrder) → Option PendingOrder → Method (Option PendingOrder)
  on_pending deadline again none = pure none
  on_pending deadline again (some p) = read_clock >>= λ now. stop_or again p (leb deadline now)

  -- The loop of `_resolve_fill`, on fuel: none once the order is no longer pending, else its last
  -- record at the deadline.
  unfoldable pub poll : ℕ → String → ℕ → Method (Option PendingOrder)
  poll zero n deadline = raise poll_unfinished
  poll (suc fuel) n deadline = do
    pending ← retried out.get_pending_orders
    on_pending deadline (poll fuel n deadline) (find_order n pending)

  abbrev pub is_exceeded : ExecutorError E → Bool
  is_exceeded backoff_exceeded = true
  is_exceeded _ = false

  -- `try: cancel ... except ExecutorError: self._halt = True`
  abbrev pub cancelled :
      Result (ExecutorError E) (Unit {0}) × Executor W S
      → Result (ExecutorError E) (Unit {0}) × Executor W S
  cancelled (ok a, x) = (ok a, x)
  cancelled (err e, x) = if is_exceeded e then (ok tt, record x { halt = true }) else (err e, x)

  abbrev pub cancel : OrderTicket → Method (Unit {0})
  cancel ticket x = cancelled (retried (out.cancel_order ticket.order_number) x)

  abbrev pub checked_outcome : FillOutcome → Method FillOutcome
  checked_outcome o x = (if is_consistent o then ok o else err bad_outcome, x)

  -- Behind the loop.
  abbrev pub conclude : OrderTicket → Option PendingOrder → Method FillOutcome
  conclude ticket none = checked_outcome (record { filled_qty = ticket.qty; status = full })
  conclude ticket (some p) =
      cancel ticket
      >> checked_outcome (record {
        filled_qty = pos p.qty_filled;
        status = status_of (pos p.qty_filled) ticket.qty;
      })

  unfoldable pub resolve_fill : ℕ → OrderTicket → Method FillOutcome
  resolve_fill fuel ticket = do
    begun ← read_clock
    last ← poll fuel ticket.order_number (begun + c.order_fill_timeout)
    conclude ticket last

  abbrev pub note_entry : EntryEvent → Method (Unit {0})
  note_entry e x =
      if entry_event_ok e
      then (ok tt, record x { sweep_entry_events = x.sweep_entry_events ++ (e ∷ []) })
      else (err bad_event, x)

  abbrev pub note_exit : ExitEvent → Method (Unit {0})
  note_exit e x =
      if exit_event_ok e
      then (ok tt, record x { sweep_exit_events = x.sweep_exit_events ++ (e ∷ []) })
      else (err bad_event, x)

  -- Behind a fill that is not empty.
  unfoldable pub enter : EntrySignal → Datetime → OrderTicket → ℤ → Method Bool
  enter s now ticket filled_qty = do
    fill ← priced (buy_fill_price s.price c.slippage_rate)
    on_risk (record_entry s.symbol fill filled_qty now)
    modify (λ x. record x {
      open_lots =
          put s.symbol (record { entry_price = fill; qty = filled_qty; stop_price = s.stop_price })
            x.open_lots;
    })
    note_entry (entry_event s fill filled_qty now ticket)
    once (out.subscribe s.symbol)
    pure true

  abbrev pub unless_unfilled : FillStatus → Method Bool → Method Bool
  unless_unfilled full m = m
  unless_unfilled partial m = m
  unless_unfilled unfilled m = pure false

  -- Behind an approval.
  unfoldable pub order_entry : ℕ → EntrySignal → Datetime → ℤ → Method Bool
  order_entry fuel s now qty = do
    ticket ← retried (out.submit_buy s.symbol qty)
    outcome ← resolve_fill fuel ticket
    unless_unfilled outcome.status (enter s now ticket outcome.filled_qty)

  unfoldable pub judged : EntrySignal → ℤ → Method RiskDecision
  judged s cash x =
      (elim (evaluate_entry x.risk s cash) [ ok d ↦ ok d | err e ↦ err (risk_error e) ], x)

  -- `if not c: return False`
  abbrev pub only_if : Bool → Method Bool → Method Bool
  only_if true m = m
  only_if false m = pure false

  -- Behind the check of the halt.
  unfoldable pub request_entry : ℕ → EntrySignal → Datetime → Method Bool
  request_entry fuel s now = do
    balance ← retried out.get_balance
    decision ← judged s (available_cash c balance)
    only_if decision.approved (order_entry fuel s now decision.qty)

  unfoldable pub handle_entry : ℕ → EntrySignal → Datetime → Method Bool
  handle_entry fuel s now = do
    halted ← gets is_halted
    only_if (not halted) (request_entry fuel s now)

  -- Behind a sale that is filled in whole.
  unfoldable pub leave : ExitSignal → Datetime → OpenLot → OrderTicket → Method Bool
  leave s now lot ticket = do
    fill ← priced (sell_fill_price s.price c.slippage_rate)
    net_pnl ← priced (compute_net_pnl c lot.entry_price fill lot.qty)
    on_risk (record_exit s.symbol net_pnl)
    modify (λ x. record x { open_lots = remove s.symbol x.open_lots })
    once (out.unsubscribe s.symbol)
    note_exit (exit_event s lot fill net_pnl now ticket)
    pure true

  unfoldable pub halt_now : Method Bool
  halt_now x = (err not_filled, record x { halt = true })

  abbrev pub if_full : FillStatus → Method Bool → Method Bool
  if_full full m = m
  if_full partial m = halt_now
  if_full unfilled m = halt_now

  unfoldable pub order_exit : ℕ → ExitSignal → Datetime → OpenLot → Method Bool
  order_exit fuel s now lot = do
    ticket ← retried (out.submit_sell s.symbol lot.qty)
    outcome ← resolve_fill fuel ticket
    if_full outcome.status (leave s now lot ticket)

  abbrev pub sell_lot : ℕ → ExitSignal → Datetime → Option OpenLot → Method Bool
  sell_lot fuel s now none = raise missing_entry
  sell_lot fuel s now (some lot) = order_exit fuel s now lot

  unfoldable pub handle_exit : ℕ → ExitSignal → Datetime → Method Bool
  handle_exit fuel s now x =
      sell_lot fuel s now (lot_of (get s.symbol x.open_lots) (get s.symbol x.risk.active_positions))
        x

  unfoldable pub handle : ℕ → Datetime → Signal → Method Bool
  handle fuel now (entry s) = handle_entry fuel s now
  handle fuel now (exit s) = handle_exit fuel s now

  -- The number of orders that went through.
  unfoldable pub process_signals : ℕ → Datetime → List Signal → Method ℕ
  process_signals fuel now [] = pure 0
  process_signals fuel now (s ∷ ss) = do
    done ← handle fuel now s
    n ← process_signals fuel now ss
    pure (if done then n + 1 else n)
