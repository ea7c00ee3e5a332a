-- ===== src/Executor/Sweep.antt =====
-- execution/executor.py: `start_session`, `enqueue_pending_signals`, `reconcile`, `step` and
-- `force_close_all`, for any strategy.
use korean_stock_trading_sys.Common.{
  ℕ, ◌+◌, Bool, true, false, not, ◌||◌, ℤ, pos, leb_ℤ, none, some, List, [], ◌∷◌, ◌++◌, String,
  if◌then◌else◌, is_some,
}
use korean_stock_trading_sys.Common.Dict.{Dict, get, contains, put}
use korean_stock_trading_sys.Common.Exec.{
  Result, ok, err, pure, raise_if, gets, modify, ◌>>=◌, ◌>>◌,
}
use korean_stock_trading_sys.Decimal.{le, not_positive}
use korean_stock_trading_sys.Clock.{Datetime, is_naive, not_after}
use korean_stock_trading_sys.Signal.{Signal, exit, MinuteBar, stop_loss}
use korean_stock_trading_sys.Risk.{PositionRecord, RiskManager, start_session}
use korean_stock_trading_sys.Engine.{Strategy}
use korean_stock_trading_sys.Executor.{
  Holding, BalanceSnapshot, Outside, ExecutorConfig, naive_now, no_session, strategy_error, OpenLot,
  ReconcileReport, StepReport, Executor, is_halted,
}
use korean_stock_trading_sys.Executor.Orders.{Method, once, retried, on_risk, process_signals}

-- `bar.low <= lot.stop_price`, for a stop price that is set.
unfoldable pub stop_loss_guard_signals : Dict OpenLot → MinuteBar → List Signal
stop_loss_guard_signals lots bar = elim (get bar.symbol lots) [
  | none ↦ []
  | some lot ↦
      if not_positive lot.stop_price
      then []
      else if le bar.low lot.stop_price
      then exit (record {
        symbol = bar.symbol;
        price = lot.stop_price;
        ts = bar.bar_time;
        reason = stop_loss;
      })
        ∷ []
      else []
]

-- `{h.symbol: h.qty for h in balance.holdings}`, with the dictionary so far.
unfoldable pub holdings_of : List Holding → Dict ℤ → Dict ℤ
holdings_of [] d = d
holdings_of (h ∷ hs) d = holdings_of hs (put h.symbol h.qty d)

-- `{p.symbol: p.qty for p in active_positions}`
unfoldable pub quantities : Dict PositionRecord → Dict ℤ → Dict ℤ
quantities [] d = d
quantities ((k, p) ∷ ps) d = quantities ps (put p.symbol p.qty d)

-- `d.get(s, 0)`
abbrev pub qty_of : String → Dict ℤ → ℤ
qty_of s d = elim (get s d) [ none ↦ pos 0 | some q ↦ q ]

abbrev pub same_qty : ℤ → ℤ → Bool
same_qty a b = if leb_ℤ a b then leb_ℤ b a else false

abbrev pub differs : Dict ℤ → Dict ℤ → String → Bool
differs a b s = not (same_qty (qty_of s a) (qty_of s b))

-- The symbols of one dictionary at which the two differ, without those of a third one.
unfoldable pub differing : Dict ℤ → Dict ℤ → Dict ℤ → Dict ℤ → List String
differing a b seen [] = []
differing a b seen ((k, q) ∷ d) =
    let rest = differing a b seen d in
    if contains k seen then rest else if differs a b k then k ∷ rest else rest

-- Over the union of the symbols.
unfoldable pub mismatches : Dict ℤ → Dict ℤ → List String
mismatches a b = differing a b [] a ++ differing a b a b

abbrev pub is_cons : List String → Bool
is_cons [] = false
is_cons (_ ∷ _) = true

abbrev pub report_of : BalanceSnapshot → RiskManager → ReconcileReport
report_of balance risk =
    let broker = holdings_of balance.holdings [] in
    let held = quantities risk.active_positions [] in
    record {
      broker_holdings = broker;
      risk_holdings = held;
      mismatch_symbols = mismatches broker held;
    }

module _ (W : Type 0) (st : Strategy) (out : Outside W) (c : ExecutorConfig)
    (symbols : List String) where
  abbrev pub Sweeping : Type 0 → Type 0
  Sweeping A = Method W st.State st.Error out c A

  unfoldable pub start : ℕ → ℤ → Sweeping (Unit {0})
  start session_date capital = do
    on_risk W st.State st.Error out c (start_session session_date capital)
    modify (λ x. record x {
      last_processed_bar_time = [];
      open_lots = [];
      halt = false;
      last_reconcile = none;
    })

  unfoldable pub enqueue_pending_signals : List Signal → Sweeping (Unit {0})
  enqueue_pending_signals signals =
      modify (λ x. record x { pending_signals = x.pending_signals ++ signals })

  abbrev pub reconciled : ReconcileReport → Executor W st.State → Executor W st.State
  reconciled r x = record x { halt = x.halt || is_cons r.mismatch_symbols; last_reconcile = some r }

  unfoldable pub reconcile : Sweeping ReconcileReport
  reconcile = do
    balance ← retried W st.State st.Error out c out.get_balance
    x ← gets (λ x. x)
    modify (reconciled (report_of balance x.risk))
    pure (report_of balance x.risk)

  -- A call of the strategy.
  abbrev pub asked : (st.State → Result st.Error (List Signal) × st.State) → Sweeping (List Signal)
  asked f x =
      let (r, s) = f x.strategy in
      (elim r [ ok a ↦ ok a | err e ↦ err (strategy_error e) ], record x { strategy = s })

  abbrev pub mark_processed : String → MinuteBar → Sweeping (Unit {0})
  mark_processed symbol bar = modify (λ x. record x {
    last_processed_bar_time = put symbol bar.bar_time x.last_processed_bar_time;
  })

  abbrev pub is_old : String → MinuteBar → Executor W st.State → Bool
  is_old symbol bar x = elim (get symbol x.last_processed_bar_time) [
    | none ↦ false
    | some last ↦ not_after bar.bar_time last
  ]

  -- The signals of a bar: those of the guard, and then the strategy does not see it.
  abbrev pub signals_of : MinuteBar → List Signal → Sweeping (List Signal)
  signals_of bar [] = asked (st.on_bar bar)
  signals_of bar (s ∷ ss) = pure (s ∷ ss)

  -- A bar that is new, with the lots for the guard.
  unfoldable pub read_bar : ℕ → Datetime → String → MinuteBar → Dict OpenLot → Sweeping (ℕ × ℕ)
  read_bar fuel now symbol bar lots = do
    signals ← signals_of bar (stop_loss_guard_signals lots bar)
    mark_processed symbol bar
    n ← process_signals W st.State st.Error out c fuel now signals
    pure (1, n)

  unfoldable pub new_bar : ℕ → Datetime → String → MinuteBar → Sweeping (ℕ × ℕ)
  new_bar fuel now symbol bar x = read_bar fuel now symbol bar x.open_lots x

  abbrev pub unless_old : Sweeping (ℕ × ℕ) → Bool → Sweeping (ℕ × ℕ)
  unless_old m true = pure (0, 0)
  unless_old m false = m

  -- One bar: the counts of processed bars and of orders.
  unfoldable pub each_bar : ℕ → Datetime → String → MinuteBar → Sweeping (ℕ × ℕ)
  each_bar fuel now symbol bar =
      gets (is_old symbol bar) >>= unless_old (new_bar fuel now symbol bar)

  unfoldable pub each_bars : ℕ → Datetime → String → List MinuteBar → Sweeping (ℕ × ℕ)
  each_bars fuel now symbol [] = pure (0, 0)
  each_bars fuel now symbol (bar ∷ bars) = do
    a ← each_bar fuel now symbol bar
    b ← each_bars fuel now symbol bars
    pure (a.0 + b.0, a.1 + b.1)

  unfoldable pub each_symbol : ℕ → Datetime → List String → Sweeping (ℕ × ℕ)
  each_symbol fuel now [] = pure (0, 0)
  each_symbol fuel now (s ∷ ss) = do
    bars ← once W st.State st.Error out c (out.get_minute_bars s)
    a ← each_bars fuel now s bars
    b ← each_symbol fuel now ss
    pure (a.0 + b.0, a.1 + b.1)

  abbrev pub no_day : Executor W st.State → Bool
  no_day x = not (is_some x.risk.session_date)

  unfoldable pub open_sweep : Datetime → Sweeping (Unit {0})
  open_sweep now = do
    raise_if (is_naive now) naive_now
    x ← gets (λ x. x)
    raise_if (no_day x) no_session
    modify (λ x. record x { sweep_entry_events = []; sweep_exit_events = [] })

  unfoldable pub close_sweep : ReconcileReport → ℕ × ℕ → Sweeping StepReport
  close_sweep r counts = gets (λ x. record {
    processed_bars = counts.0;
    orders_submitted = counts.1;
    halted = is_halted x;
    reconcile = r;
    entry_events = x.sweep_entry_events;
    exit_events = x.sweep_exit_events;
  })

  unfoldable pub take_pending : Sweeping (List Signal)
  take_pending x = (ok x.pending_signals, record x { pending_signals = [] })

  -- Behind the checks.
  unfoldable pub step_body : ℕ → Datetime → Sweeping StepReport
  step_body fuel now = do
    pending ← take_pending
    n ← process_signals W st.State st.Error out c fuel now pending
    report ← reconcile
    counts ← each_symbol fuel now symbols
    timed ← asked (st.on_time now)
    m ← process_signals W st.State st.Error out c fuel now timed
    close_sweep report (counts.0, n + counts.1 + m)

  unfoldable pub step : ℕ → Datetime → Sweeping StepReport
  step fuel now = open_sweep now >> step_body fuel now

  unfoldable pub force_close_body : ℕ → Datetime → Sweeping StepReport
  force_close_body fuel now = do
    report ← reconcile
    timed ← asked (st.on_time now)
    m ← process_signals W st.State st.Error out c fuel now timed
    close_sweep report (0, m)

  unfoldable pub force_close_all : ℕ → Datetime → Sweeping StepReport
  force_close_all fuel now = open_sweep now >> force_close_body fuel now
