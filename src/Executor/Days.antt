-- ===== src/Executor/Days.antt =====
-- execution/executor.py: sessions and sweeps, in whatever order they are called.
use korean_stock_trading_sys.Common.{ℕ, sym, subst, false, ℤ, none, List, [], ◌∷◌, String}
use korean_stock_trading_sys.Common.Paired.{Paired}
use korean_stock_trading_sys.Common.Exec.{Result, ok, err, gets, raise_if, modify, ◌>>=◌, ◌>>◌}
use korean_stock_trading_sys.Clock.{Datetime, is_naive}
use korean_stock_trading_sys.Signal.{EntrySignal, ExitSignal, Signal}
use korean_stock_trading_sys.Risk.{RiskError, RiskManager, start_session}
use korean_stock_trading_sys.Risk.Session.{Yields, begun, start_session-Yields}
use korean_stock_trading_sys.Engine.{Strategy}
use korean_stock_trading_sys.Executor.{
  Outside, ExecutorConfig, ExecutorError, OrderTicket, naive_now, no_session, OpenLot, Executor,
}
use korean_stock_trading_sys.Executor.Orders.{Method, enter, leave, on_risk}
use korean_stock_trading_sys.Executor.Sweep.{
  start, enqueue_pending_signals, no_day, open_sweep, step_body, step, force_close_body,
  force_close_all,
}
use korean_stock_trading_sys.Executor.InSync.{
  Matches, Synced, InSync, Keeps, bind_keeps, enter_keeps, leave_keeps, kept as keeping,
}
use korean_stock_trading_sys.Executor.Frame.{kept, Ends-both}
use korean_stock_trading_sys.Executor.SweepFrame.{Safely, step_body_keeps, force_close_body_keeps}

-- One call of a public method.
pub data Call : Type 0 where
  start_day : ℕ → ℤ → Call
  enqueue : List Signal → Call
  sweep : ℕ → Datetime → Call
  force_close : ℕ → Datetime → Call

module _ (W : Type 0) (st : Strategy) (out : Outside W) (c : ExecutorConfig)
    (symbols : List String) where
  abbrev M : Type 0 → Type 0
  M A = Method W st.State st.Error out c A

  after :
      (A B : Type 0) (m : M A) (f : A → M B)
      → Keeps InSync m
      → ((a : A) → Keeps InSync (f a))
      → Keeps InSync (m >>= f)
  after A B m f h k = bind_keeps (Executor W st.State) (ExecutorError st.Error) A B InSync m f h k

  entering :
      (s : EntrySignal) (now : Datetime) (ticket : OrderTicket) (qty : ℤ)
      → Safely W st out c symbols Synced Synced
          (λ lots m es xs v. v)
          (enter W st.State st.Error out c s now ticket qty)
  entering s now ticket qty =
      kept W st.State st.Error out c Synced Synced (λ lots m es xs v. v)
        (enter_keeps W st.State st.Error out c s now ticket qty).keep

  leaving :
      (s : ExitSignal) (now : Datetime) (lot : OpenLot) (ticket : OrderTicket)
      → Safely W st out c symbols Synced Synced
          (λ lots m es xs v. v)
          (leave W st.State st.Error out c s now lot ticket)
  leaving s now lot ticket =
      kept W st.State st.Error out c Synced Synced (λ lots m es xs v. v)
        (leave_keeps W st.State st.Error out c s now lot ticket).keep

  open_sweep_keeps : (now : Datetime) → Keeps InSync (open_sweep W st out c symbols now)
  unfolding open_sweep
  open_sweep_keeps now = after _ _ (raise_if (is_naive now) naive_now) _ (keeping (λ x v. v)) λ _.
      after _ _ (gets (λ x. x)) _ (keeping (λ x v. v)) λ x.
        after _ _ (raise_if (no_day W st out c symbols x) no_session) _ (keeping (λ x v. v))
          λ _. keeping (λ x v. v)

  step_keeps : (fuel : ℕ) (now : Datetime) → Keeps InSync (step W st out c symbols fuel now)
  unfolding step
  step_keeps fuel now = after _ _ (open_sweep W st out c symbols now) _ (open_sweep_keeps now) λ _.
      keeping λ x v. Ends-both InSync (step_body W st out c symbols fuel now x) (
        (step_body_keeps W st out c symbols Synced Synced (λ lots m es xs v. v) now
            (λ s. entering s now) (λ s. leaving s now) fuel).keep
          x v)

  force_close_all_keeps :
      (fuel : ℕ) (now : Datetime) → Keeps InSync (force_close_all W st out c symbols fuel now)
  unfolding force_close_all
  force_close_all_keeps fuel now =
      after _ _ (open_sweep W st out c symbols now) _ (open_sweep_keeps now) λ _. keeping λ x v.
        Ends-both InSync (force_close_body W st out c symbols fuel now x) (
          (force_close_body_keeps W st out c symbols Synced Synced (λ lots m es xs v. v) now
              (λ s. entering s now) (λ s. leaving s now) fuel).keep
            x v)

  abbrev cleared : Executor W st.State → Executor W st.State
  cleared x = record x {
    last_processed_bar_time = [];
    open_lots = [];
    halt = false;
    last_reconcile = none;
  }

  started :
      (date : ℕ) (capital : ℤ) (x : Executor W st.State)
      (o : Result RiskError (Unit {0}) × RiskManager) (P : Type 0)
      → Yields x.risk (begun date capital x.risk) P o
      → InSync x
      → InSync ((on_risk W st.State st.Error out c (λ _. o) >> modify cleared) x).1
  started date capital x (err e, m) P y v =
      subst (λ m. Paired Matches x.open_lots m.active_positions) (sym y) v
  started date capital x (ok _, m) P y v =
      subst (λ m. Paired Matches [] m.active_positions) (sym y.1) tt

  start_keeps : (date : ℕ) (capital : ℤ) → Keeps InSync (start W st out c symbols date capital)
  unfolding start
  start_keeps date capital = keeping λ x v.
      started date capital x (start_session date capital x.risk) _
        (start_session-Yields date capital x.risk) v

  unfoldable pub call : Call → Executor W st.State → Executor W st.State
  call (start_day date capital) x = (start W st out c symbols date capital x).1
  call (enqueue signals) x = (enqueue_pending_signals W st out c symbols signals x).1
  call (sweep fuel now) x = (step W st out c symbols fuel now x).1
  call (force_close fuel now) x = (force_close_all W st out c symbols fuel now x).1

  unfoldable pub calls : List Call → Executor W st.State → Executor W st.State
  calls [] x = x
  calls (k ∷ ks) x = calls ks (call k x)

  call_keeps : (k : Call) (x : Executor W st.State) → InSync x → InSync (call k x)
  unfolding call enqueue_pending_signals
  call_keeps (start_day date capital) x v = (start_keeps date capital).keep x v
  call_keeps (enqueue signals) x v = v
  call_keeps (sweep fuel now) x v = (step_keeps fuel now).keep x v
  call_keeps (force_close fuel now) x v = (force_close_all_keeps fuel now).keep x v

  -- From a state in which the executor's open lots and the risk manager's positions are of the same
  -- symbols, quantities and prices, they stay so through any sequence of session starts, sweeps and
  -- forced closings, whatever the broker, the bars and the strategy answer and wherever a call raises.
  pub calls-InSync : (ks : List Call) (x : Executor W st.State) → InSync x → InSync (calls ks x)
  unfolding calls
  calls-InSync [] x v = v
  calls-InSync (k ∷ ks) x v = calls-InSync ks (call k x) (call_keeps k x v)
