-- ===== src/Executor/Polls.antt =====
-- execution/executor.py, `_resolve_fill`: the poll for a fill and the clock.
use korean_stock_trading_sys.Common.{
  ℕ, zero, suc, ◌+◌, ◌*◌, ◌^◌, ◌≤◌, ◌<◌, ◌≡◌, refl, ◌⊎◌, Bool, true, false, inl, inr, Bool-cases,
  Option, none, some, String, arith, leb, pos,
}
use korean_stock_trading_sys.Common.Exec.{Result, ok, err, Result-cases, continue}
use korean_stock_trading_sys.Executor.{
  Fault, kis_client_error, other_fault, Outside, ExecutorConfig, ExecutorError, fault,
  poll_unfinished, backoff_exceeded, BackoffError, exceeded, passed_on, with_backoff, OrderTicket,
  PendingOrder, FillOutcome, full, Executor,
}
use korean_stock_trading_sys.Executor.Orders.{
  Method, retried, poll, find_order, stop_or, on_pending, conclude, checked_outcome, cancel,
  cancelled, is_exceeded, is_consistent, resolve_fill, read_clock, do_sleep, status_of,
}

-- What the poll relies on: there is a time that the clock shows, that calls do not turn back and that
-- a sleep moves on by its length at least.
pub record Ticks {W : Type 0} (out : Outside W) : Type 0 where
  pub time : W → ℕ
  pub reads : (w : W) → ((out.clock w).0 ≡ time w) × (time w ≤ time (out.clock w).1)
  pub sleeps : (d : ℕ) (w : W) → time w + d ≤ time (out.sleep d w)
  pub asks : (w : W) → time w ≤ time (out.get_pending_orders w).1

Fault-cases : (f : Fault) → (f ≡ kis_client_error) ⊎ (f ≡ other_fault)
Fault-cases kis_client_error = inl refl
Fault-cases other_fault = inr refl

module _ (W S E : Type 0) (out : Outside W) (c : ExecutorConfig) (t : Ticks out) where
  abbrev pub IsDone : {A : Type 0} → Result (ExecutorError E) A → Type 0
  IsDone (ok _) = Unit
  IsDone (err poll_unfinished) = ⊥
  IsDone (err _) = Unit

  backoff_time :
      (n a : ℕ) (w : W)
      → t.time w ≤ t.time (with_backoff out c.backoff_initial out.get_pending_orders n a w).1
  unfolding with_backoff
  backoff_time zero a w = elim (Result-cases (out.get_pending_orders w).0) [
    | inr (v, e) ↦ rw (e, with_backoff) (t.asks w)
    | inl (f, e) ↦ elim (Fault-cases f) [
      | inl k ↦ rw (e, with_backoff) (rw k (t.asks w))
      | inr k ↦ rw (e, with_backoff) (rw k (t.asks w))
    ]
  ]
  backoff_time (suc n) a w = elim (Result-cases (out.get_pending_orders w).0) [
    | inr (v, e) ↦ rw (e, with_backoff) (t.asks w)
    | inl (f, e) ↦ elim (Fault-cases f) [
      | inr k ↦ rw (e, with_backoff) (rw k (t.asks w))
      | inl k ↦
          let pause = c.backoff_initial * 2 ^ a in
          let w1 = (out.get_pending_orders w).1 in
          rw (e, with_backoff)
            (rw k (
              omega
                (arith, t.asks w, t.sleeps pause w1, backoff_time n (a + 1) (out.sleep pause w1))))
    ]
  ]

  -- A step that is done, with what comes behind it.
  continue-IsDone :
      (A B : Type 0) (r : Result (ExecutorError E) A) (x : Executor W S)
      (f : A → Method W S E out c B)
      → IsDone r
      → ((a : A) → r ≡ ok a → IsDone (f a x).0)
      → IsDone (continue r f x).0
  continue-IsDone A B (ok a) x f h k = k a refl
  continue-IsDone A B (err e) x f h k = h

  retried-IsDone :
      (A : Type 0) (f : W → Result Fault A × W) (x : Executor W S)
      → IsDone (retried W S E out c f x).0
  retried-IsDone A f x =
      told (with_backoff out c.backoff_initial f c.backoff_max_attempts 0 x.world).0
    where
      told :
          (r : Result BackoffError A)
          → IsDone {A = A} (elim r [
            | ok a ↦ ok a
            | err e ↦ err (elim e [ exceeded ↦ backoff_exceeded | passed_on ↦ fault other_fault ])
          ])
      told (ok a) = tt
      told (err exceeded) = tt
      told (err passed_on) = tt

  not_yet : (a b : ℕ) → leb a b ≡ false → b < a
  not_yet a b h = ground arith

  -- One round of the poll, over the rounds behind it.
  module _ (fuel deadline : ℕ) (again : Method W S E out c (Option PendingOrder))
      (hi : 1 ≤ c.order_poll_interval) where
    stop-IsDone :
        (x : Executor W S) (p : PendingOrder) (b : Bool)
        → ((y : Executor W S) → 1 ≤ fuel → deadline < t.time y.world + fuel → IsDone (again y).0)
        → deadline < t.time x.world + suc fuel
        → leb deadline (out.clock x.world).0 ≡ b
        → IsDone (stop_or W S E out c again p b (read_clock W S E out c x).1).0
    stop-IsDone x p true rec h e = tt
    stop-IsDone x p false rec h e =
        let (shown, on) = t.reads x.world in
        let slept = t.sleeps c.order_poll_interval (out.clock x.world).1 in
        let early = not_yet deadline (out.clock x.world).0 e in
        rec (do_sleep W S E out c (read_clock W S E out c x).1).1 (omega (arith, shown, early, h))
          (omega (arith, shown, on, early, h, slept, hi))

    pending-IsDone :
        (x : Executor W S) (o : Option PendingOrder)
        → ((y : Executor W S) → 1 ≤ fuel → deadline < t.time y.world + fuel → IsDone (again y).0)
        → deadline < t.time x.world + suc fuel
        → IsDone (on_pending W S E out c deadline again o x).0
    pending-IsDone x none rec h = tt
    pending-IsDone x (some p) rec h =
        stop-IsDone x p (leb deadline (out.clock x.world).0) rec h refl

  poll-IsDone :
      (fuel : ℕ) (n : String) (deadline : ℕ) (x : Executor W S)
      → 1 ≤ c.order_poll_interval
      → 1 ≤ fuel
      → deadline < t.time x.world + fuel
      → IsDone (poll W S E out c fuel n deadline x).0
  unfolding poll
  poll-IsDone zero n deadline x hi hf h = absurd (omega arith)
  poll-IsDone (suc fuel) n deadline x hi hf h =
      let asked = retried W S E out c out.get_pending_orders x in
      let later = backoff_time c.backoff_max_attempts 0 x.world in
      continue-IsDone _ _ asked.0 asked.1 _ (retried-IsDone _ out.get_pending_orders x) λ pending e.
        pending-IsDone fuel deadline (poll W S E out c fuel n deadline) hi asked.1
          (find_order n pending) (λ y. poll-IsDone fuel n deadline y hi) (omega (arith, later, h))

  checked-IsDone : (o : FillOutcome) (x : Executor W S) → IsDone (checked_outcome W S E out c o x).0
  checked-IsDone o x = elim (Bool-cases (is_consistent o)) [ inl h ↦ rw h tt | inr h ↦ rw h tt ]

  conclude-IsDone :
      (ticket : OrderTicket) (o : Option PendingOrder) (x : Executor W S)
      → IsDone (conclude W S E out c ticket o x).0
  conclude-IsDone ticket none x =
      checked-IsDone (record { filled_qty = ticket.qty; status = full }) x
  conclude-IsDone ticket (some p) x =
      continue-IsDone _ _ (cancel W S E out c ticket x).0 (cancel W S E out c ticket x).1 _
        (cancel_done (retried W S E out c (out.cancel_order ticket.order_number) x)
          (retried-IsDone _ (out.cancel_order ticket.order_number) x))
        (λ _ e.
          checked-IsDone
            (record {
              filled_qty = pos p.qty_filled;
              status = status_of (pos p.qty_filled) ticket.qty;
            })
            (cancel W S E out c ticket x).1)
    where
      cancel_done :
          (r : Result (ExecutorError E) (Unit {0}) × Executor W S)
          → IsDone r.0
          → IsDone (cancelled W S E out c r).0
      cancel_done (ok a, x) h = tt
      cancel_done (err e, x) h = elim (Bool-cases (is_exceeded W S E out c e)) [
        | inl k ↦ rw k tt
        | inr k ↦ rw k h
      ]

  -- Where a poll pauses for at least a microsecond and the clock goes on, one unit of fuel more than
  -- the time-out has microseconds is enough: the wait for a fill ends with an outcome or with an
  -- error of the broker, never for want of fuel.
  pub resolve_fill-IsDone :
      (ticket : OrderTicket) (x : Executor W S)
      → 1 ≤ c.order_poll_interval
      → IsDone (resolve_fill W S E out c (c.order_fill_timeout + 1) ticket x).0
  unfolding resolve_fill
  resolve_fill-IsDone ticket x hi =
      let (shown, on) = t.reads x.world in
      let x1 = (read_clock W S E out c x).1 in
      let fuel = c.order_fill_timeout + 1 in
      let deadline = (out.clock x.world).0 + c.order_fill_timeout in
      let polled = poll W S E out c fuel ticket.order_number deadline x1 in
      continue-IsDone _ _ polled.0 polled.1 _
        (poll-IsDone fuel ticket.order_number deadline x1 hi (omega arith)
          (omega (arith, shown, on)))
        (λ o e. conclude-IsDone ticket o polled.1)
