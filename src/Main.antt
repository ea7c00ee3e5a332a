-- ===== src/Main.antt =====
-- main.py: the callbacks of the scheduler around the executor, the ledger and the notifier. A
-- callback lets no exception through, so each is a function of the run's state; the clock's answer,
-- the results of sqlite3 and the ratio of the daily report come from outside.
pub mod Noted
pub mod Sweeps
pub mod Books
pub mod Opening
pub mod Restart
pub mod Trading
mod Tests
use korean_stock_trading_sys.Common.{
  ℕ, Bool, true, false, not, ◌||◌, ℤ, pos, leb_ℤ, ltb_ℤ, Option, none, some, List, [], ◌∷◌, ◌++◌,
  map, String, if◌then◌else◌,
}
use korean_stock_trading_sys.Common.Exec.{Result, ok, err}
use korean_stock_trading_sys.Clock.{Datetime}
use korean_stock_trading_sys.Engine.{Strategy}
use korean_stock_trading_sys.Executor.{
  Outside, ExecutorConfig, EntryEvent, ExitEvent, StepReport, BalanceSnapshot, Fault, Executor,
  ExecutorError, is_halted, ReconcileReport,
}
use korean_stock_trading_sys.Executor.Sweep.{start, step, force_close_all, is_cons}
use korean_stock_trading_sys.Executor.Restore.{OpenPosition, Restorer, restore_session}
use korean_stock_trading_sys.Storage.{
  Recorder, OpenPositionRow, DailyPnlSnapshot, DailySummary, record_entry, record_exit,
  record_daily_summary, load_open_positions, load_daily_pnl, empty_pnl, has_state,
}

-- A `SqliteTradingRecorder`, or the `NullTradingRecorder` in its place.
pub data Ledger : Type 0 where
  no_ledger : Ledger
  kept_ledger : Recorder → Ledger

pub data Stage : Type 0 where
  recorder_null session_start step_stage reconcile_stage force_close_stage : Stage

-- A call of the notifier.
pub data Notice : Type 0 where
  entry_notice : EntryEvent → Notice
  exit_notice : ExitEvent → Notice
  error_notice : Stage → Notice
  summary_notice : DailySummary → Notice

-- `Runtime` with its `SessionStatus`; the notices stand in their order, and `faults` says which of
-- the next calls of sqlite3 raise.
pub record Runtime (W S : Type 0) : Type 0 where
  pub executor : Executor W S
  pub ledger : Ledger
  pub started : Bool
  pub fail_logged : Bool
  pub notices : List Notice
  pub faults : List Bool

abbrev pub head_fault : List Bool → Bool
head_fault [] = false
head_fault (f ∷ fs) = f

abbrev pub rest_faults : List Bool → List Bool
rest_faults [] = []
rest_faults (f ∷ fs) = fs

-- `min(a, b)`
abbrev pub min_ℤ : ℤ → ℤ → ℤ
min_ℤ a b = if ltb_ℤ b a then b else a

-- The row as `OpenPositionInput`.
abbrev pub as_input : OpenPositionRow → OpenPosition
as_input p = record {
  symbol = p.symbol;
  qty = p.qty;
  entry_price = p.entry_price;
  entry_ts = p.entry_ts;
}

abbrev pub any_row : List OpenPositionRow → Bool
any_row [] = false
any_row (_ ∷ _) = true

module _ {W S : Type 0} where
  abbrev pub notify : Notice → Runtime W S → Runtime W S
  notify n rt = record rt { notices = rt.notices ++ (n ∷ []) }

  abbrev pub written : (Bool → Recorder → Recorder) → Ledger → Runtime W S → Runtime W S
  written f no_ledger rt = rt
  written f (kept_ledger r) rt = record rt {
    ledger = kept_ledger (f (head_fault rt.faults) r);
    faults = rest_faults rt.faults;
  }

  -- A call of `runtime.recorder`.
  abbrev pub write : (Bool → Recorder → Recorder) → Runtime W S → Runtime W S
  write f rt = written f rt.ledger rt

  unfoldable pub tell_entries : List EntryEvent → Runtime W S → Runtime W S
  tell_entries [] rt = rt
  tell_entries (e ∷ es) rt =
      tell_entries es (notify (entry_notice e) (write (λ f. record_entry f e) rt))

  unfoldable pub tell_exits : List ExitEvent → Runtime W S → Runtime W S
  tell_exits [] rt = rt
  tell_exits (e ∷ es) rt = tell_exits es (notify (exit_notice e) (write (λ f. record_exit f e) rt))

  -- The two queries of a session's start, one behind the other.
  abbrev pub load :
      ℕ → Ledger → Runtime W S → (List OpenPositionRow × DailyPnlSnapshot) × Runtime W S
  load today no_ledger rt = (([], empty_pnl today), rt)
  load today (kept_ledger r) rt =
      let (rows, r') = load_open_positions today (head_fault rt.faults) r in
      let later = rest_faults rt.faults in
      let (snapshot, r'') = load_daily_pnl today (head_fault later) r' in
      ((rows, snapshot), record rt { ledger = kept_ledger r''; faults = rest_faults later })

  abbrev pub not_started : Runtime W S → Runtime W S
  not_started rt =
      notify (error_notice session_start) (record rt { started = false; fail_logged = false })

  abbrev pub warn_null : Ledger → Runtime W S → Runtime W S
  warn_null no_ledger rt = notify (error_notice recorder_null) rt
  warn_null (kept_ledger r) rt = rt

module _ (W : Type 0) (st : Strategy) (out : Outside W) (c : ExecutorConfig)
    (orb : Option (Restorer st.State st.Error)) (symbols : List String) where
  abbrev pub Run : Type 0
  Run = Runtime W st.State

  -- The call of the executor, behind the queries.
  unfoldable pub open_day :
      ℕ
      → ℤ
      → List OpenPositionRow
      → DailyPnlSnapshot
      → Executor W st.State
      → Result (ExecutorError st.Error) (Unit {0}) × Executor W st.State
  open_day today capital rows s x =
      if any_row rows || has_state s
      then restore_session W st.State st.Error out c orb today capital (map as_input rows)
          s.closed_symbols (pos s.entries_today) s.realized_pnl_krw x
      else start W st out c symbols today capital x

  abbrev pub opened : Result (ExecutorError st.Error) (Unit {0}) × Executor W st.State → Run → Run
  opened (ok _, x) rt = record rt { executor = x; started = true; fail_logged = false }
  opened (err _, x) rt = not_started (record rt { executor = x })

  unfoldable pub with_capital : Datetime → ℤ → Run → Run
  with_capital now capital rt =
      let ((rows, s), rt') = load now.date rt.ledger rt in
      opened (open_day now.date capital rows s rt'.executor) rt'

  abbrev pub with_balance : Datetime → ℤ → Result Fault BalanceSnapshot × W → Run → Run
  with_balance now cli (err _, w) rt =
      not_started (record rt { executor = record rt.executor { world = w } })
  with_balance now cli (ok b, w) rt =
      let rt' : Run = record rt { executor = record rt.executor { world = w } } in
      if leb_ℤ (min_ℤ cli b.withdrawable) (pos 0)
      then not_started rt'
      else with_capital now (min_ℤ cli b.withdrawable) rt'

  -- `_on_session_start` with the capital of the command line.
  unfoldable pub on_session_start : ℤ → Datetime → Run → Run
  on_session_start cli now rt =
      let rt' = warn_null rt.ledger rt in
      with_balance now cli (out.get_balance rt'.executor.world) rt'

  abbrev pub warn_mismatch : StepReport → Run → Run
  warn_mismatch report rt =
      if is_cons report.reconcile.mismatch_symbols
      then notify (error_notice reconcile_stage) rt
      else rt

  abbrev pub stepped : Result (ExecutorError st.Error) StepReport × Executor W st.State → Run → Run
  stepped (err _, x) rt = notify (error_notice step_stage) (record rt { executor = x })
  stepped (ok report, x) rt = warn_mismatch report (
      tell_exits report.exit_events (tell_entries report.entry_events (record rt { executor = x })))

  -- `_on_step`
  unfoldable pub on_step : ℕ → Datetime → Run → Run
  on_step fuel now rt =
      if rt.started
      then stepped (step W st out c symbols fuel now rt.executor) rt
      else record rt { fail_logged = true }

  -- On a raise the exits that were noted before it are told all the same.
  abbrev pub force_closed :
      Result (ExecutorError st.Error) StepReport × Executor W st.State → Run → Run
  force_closed (ok report, x) rt = tell_exits report.exit_events (record rt { executor = x })
  force_closed (err _, x) rt =
      notify (error_notice force_close_stage)
        (tell_exits x.sweep_exit_events (record rt { executor = x }))

  -- `_on_force_close`
  unfoldable pub on_force_close : ℕ → Datetime → Run → Run
  on_force_close fuel now rt =
      force_closed (force_close_all W st out c symbols fuel now rt.executor) rt

  abbrev pub mismatch_of : Option ReconcileReport → List String
  mismatch_of none = []
  mismatch_of (some r) = r.mismatch_symbols

  abbrev pub summary_of : (ℤ → Option ℤ → Option ℕ) → Datetime → Executor W st.State → DailySummary
  summary_of pct now x = record {
    session_date = now.date;
    starting_capital_krw = x.risk.starting_capital_krw;
    realized_pnl_krw = x.risk.daily_realized_pnl_krw;
    realized_pnl_pct = pct x.risk.daily_realized_pnl_krw x.risk.starting_capital_krw;
    entries_today = pos x.risk.entries_today;
    halted = is_halted x;
    mismatch_symbols = mismatch_of x.last_reconcile;
  }

  -- `_on_daily_report`, with `_safe_pct` and the time of the record from outside.
  unfoldable pub on_daily_report : (ℤ → Option ℤ → Option ℕ) → Datetime → Datetime → Run → Run
  on_daily_report pct now recorded_at rt =
      let summary = summary_of pct now rt.executor in
      notify (summary_notice summary) (write (λ f. record_daily_summary f recorded_at summary) rt)
