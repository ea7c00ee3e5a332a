-- ===== src/Main/Tests.antt =====
-- A day in which one share is bought and the process starts again, and the theorem at this day.
use korean_stock_trading_sys.Common.{ℕ, ◌+◌, ◌≡◌, refl, true, false, ◌+ℤ◌, ◌-ℤ◌, pos, none, [], ◌∷◌}
use korean_stock_trading_sys.Common.Dict.{get, put}
use korean_stock_trading_sys.Common.Exec.{ok}
use korean_stock_trading_sys.Decimal.{
  literal, mul, sub, add, fix, to_int, div, half_even, shift, lt, le,
}
use korean_stock_trading_sys.Symbol.{full_match}
use korean_stock_trading_sys.Clock.{Datetime, kst, clock_time}
use korean_stock_trading_sys.Signal.{EntrySignal, entry}
use korean_stock_trading_sys.Risk.{
  new_manager, default_config, start_session, evaluate_entry, validate_signal, limit_reason,
  judge_notional, halt_threshold_krw, collect,
}
use korean_stock_trading_sys.Risk
use korean_stock_trading_sys.Engine.{Strategy}
use korean_stock_trading_sys.Executor.{
  buy, EntryEvent, Outside, ExecutorConfig, StepReport, Executor, with_backoff,
}
use korean_stock_trading_sys.Costs.{buy_fill_price}
use korean_stock_trading_sys.Executor.Orders.{
  process_signals, handle, handle_entry, request_entry, judged, order_entry, enter, resolve_fill,
  poll, find_order,
}
use korean_stock_trading_sys.Executor.Restore.{
  restore_session, effective_closed, is_open, lots_of, subscribe_all,
}
use korean_stock_trading_sys.Executor.Sweep.{
  start, step, open_sweep, step_body, take_pending, reconcile, holdings_of, quantities, mismatches,
  differing, each_symbol, close_sweep,
}
use korean_stock_trading_sys.Storage.{Recorder}
use korean_stock_trading_sys.Storage as S
use korean_stock_trading_sys.Storage.{
  load_open_positions, replay, sort_rows, of_session, load_daily_pnl, on_success, tally,
  record_entry, insert_order, accepts, has_number, insert_row, replay_row, read_open, open_row_ok,
  tally_row, insert_symbol, key_lt,
}
use korean_stock_trading_sys.Storage.Replay
use korean_stock_trading_sys.Storage.Replay.{sums_of, notes, note}
use korean_stock_trading_sys.Main.{
  Runtime, kept_ledger, on_session_start, on_step, tell_entries, tell_exits, with_capital, open_day,
}
use korean_stock_trading_sys.Main.Noted.{fresh}
use korean_stock_trading_sys.Main.Books.{events_of}
use korean_stock_trading_sys.Main.Restart.{queried}
use korean_stock_trading_sys.Main.Trading.{
  Trading, begin, sweep, reopened, Resumes, restart-Resumes,
}

-- A broker that fills at once, with five million won; the outside is its time.
abbrev prompt : Outside ℕ
prompt = record {
  submit_buy = λ s q w. (ok (record { order_number = "A1"; symbol = s; side = buy; qty = q }), w);
  submit_sell = λ s q w. (ok (record { order_number = "A2"; symbol = s; side = buy; qty = q }), w);
  get_pending_orders = λ w. (ok [], w);
  cancel_order = λ n w. (ok tt, w);
  get_balance = λ w. (ok (record { withdrawable = pos 5_000_000; holdings = [] }), w);
  get_minute_bars = λ s w. (ok [], w);
  subscribe = λ s w. (ok tt, w);
  unsubscribe = λ s w. (ok tt, w);
  clock = λ w. (w, w);
  sleep = λ d w. w + d;
}

abbrev config : ExecutorConfig
config = record {
  cash_buffer_pct = literal 5 3;
  order_fill_timeout = 4;
  order_poll_interval = 2;
  slippage_rate = literal 1 3;
  commission_rate = literal 15 5;
  sell_tax_rate = literal 18 4;
  backoff_max_attempts = 3;
  backoff_initial = 1;
}

-- A strategy that sends nothing.
abbrev silent : Strategy
silent = record {
  State = Unit {0};
  Error = Unit {0};
  initial = tt;
  on_bar = λ bar s. (ok [], s);
  on_time = λ now s. (ok [], s);
  force_close_at = clock_time 15 0;
}

abbrev at : ℕ → ℕ → Datetime
at h m = record { date = 739_000; time = clock_time h m; offset = kst }

abbrev signal : EntrySignal
signal = record {
  symbol = "005930";
  price = literal 10_000 0;
  ts = at 9 30;
  stop_price = literal 9_850 0;
  take_price = literal 10_300 0;
}

-- An executor before its first session, with a signal that waits or without.
abbrev idle : Executor ℕ (Unit {0})
idle = record {
  world = 100;
  strategy = tt;
  risk = new_manager default_config;
  last_processed_bar_time = [];
  open_lots = [];
  halt = false;
  last_reconcile = none;
  sweep_entry_events = [];
  sweep_exit_events = [];
  pending_signals = [];
}

abbrev empty : Recorder
empty = S.fresh 5 [] []

abbrev first : Runtime ℕ (Unit {0})
first = record {
  executor = record idle { pending_signals = entry signal ∷ [] };
  ledger = kept_ledger empty;
  started = false;
  fail_logged = false;
  notices = [];
  faults = [];
}

abbrev morning : Runtime ℕ (Unit {0})
morning = on_session_start ℕ silent prompt config none [] (pos 3_000_000) (at 9 0) first

abbrev bought_event : EntryEvent
bought_event = record {
  symbol = "005930";
  qty = pos 60;
  fill_price = literal 10_010_000 3;
  ref_price = literal 10_000 0;
  timestamp = at 9 31;
  order_number = "A1";
}

abbrev report : StepReport
report = record {
  processed_bars = 0;
  orders_submitted = 1;
  halted = true;
  reconcile = record {
    broker_holdings = [];
    risk_holdings = ("005930", pos 60) ∷ [];
    mismatch_symbols = "005930" ∷ [];
  };
  entry_events = bought_event ∷ [];
  exit_events = [];
}

abbrev next : Executor ℕ (Unit {0})
next = (step ℕ silent prompt config [] 1 (at 9 31) morning.executor).1

steps : step ℕ silent prompt config [] 1 (at 9 31) morning.executor ≡ (ok report, next)
unfolding on_session_start with_capital open_day load_open_positions replay sort_rows of_session
    load_daily_pnl on_success tally start start_session step open_sweep step_body take_pending
    process_signals handle handle_entry request_entry judged order_entry enter resolve_fill poll
    find_order with_backoff evaluate_entry Risk.record_entry reconcile holdings_of quantities
    mismatches differing each_symbol close_sweep buy_fill_price validate_signal limit_reason
    judge_notional halt_threshold_krw get put mul sub add div fix half_even shift to_int ◌+ℤ◌ ◌-ℤ◌
    full_match lt le new_manager Risk.is_halted Risk.judge
steps = refl

abbrev recorded : Recorder
recorded = notes (events_of report) (queried empty)

abbrev restarted : Runtime ℕ (Unit {0})
restarted = record first {
  executor = idle;
  ledger = kept_ledger (S.fresh 5 recorded.orders recorded.daily);
}

starts : morning.started ≡ true
unfolding on_session_start with_capital open_day load_open_positions replay sort_rows of_session
    load_daily_pnl on_success tally start start_session
starts = refl

starts_again :
    (on_session_start ℕ silent prompt config none [] (pos 3_000_000) (at 10 0) restarted).started
    ≡ true
unfolding on_session_start with_capital open_day load_open_positions replay sort_rows of_session
    load_daily_pnl on_success tally start start_session notes note record_entry insert_order accepts
    has_number insert_row replay_row read_open open_row_ok tally_row insert_symbol key_lt get put
    mul sub add div fix half_even shift to_int ◌+ℤ◌ ◌-ℤ◌ full_match lt le Risk.restore_session
    restore_session collect effective_closed is_open lots_of subscribe_all new_manager
    halt_threshold_krw
starts_again = refl

morning_ledger : morning.ledger ≡ kept_ledger (queried empty)
unfolding on_session_start with_capital open_day load_open_positions replay sort_rows of_session
    load_daily_pnl on_success tally start start_session
morning_ledger = refl

abbrev evening : Runtime ℕ (Unit {0})
evening = on_step ℕ silent prompt config none [] 1 (at 9 31) morning

trading :
    Trading ℕ silent prompt config none [] 739_000
      (at 9 31)
      (Replay.lots_of (events_of report) [])
      evening
unfolding of_session fresh accepts has_number key_lt on_success get
trading =
    sweep 1 (at 9 31) report (begin first (pos 3_000_000) (at 9 0) refl refl refl refl refl starts)
      starts refl refl steps refl morning_ledger (refl, tt)

-- The second process finds the row that the first one wrote.
left_behind : restarted.ledger ≡ reopened 5 evening.ledger
unfolding on_session_start with_capital open_day load_open_positions replay sort_rows of_session
    load_daily_pnl on_success tally start start_session step open_sweep step_body take_pending
    process_signals handle handle_entry request_entry judged order_entry enter resolve_fill poll
    find_order with_backoff evaluate_entry Risk.record_entry reconcile holdings_of quantities
    mismatches differing each_symbol close_sweep buy_fill_price validate_signal limit_reason
    judge_notional halt_threshold_krw get put mul sub add div fix half_even shift to_int ◌+ℤ◌ ◌-ℤ◌
    full_match lt le new_manager Risk.is_halted Risk.judge on_step tell_entries tell_exits notes
    note record_entry insert_order accepts has_number insert_row
left_behind = refl

restart-Resumes_example :
    Resumes ℕ silent prompt config none [] 739_000 evening.executor
      (on_session_start ℕ silent prompt config none [] (pos 3_000_000) (at 10 0) restarted).executor
restart-Resumes_example =
    restart-Resumes ℕ silent prompt config none [] 739_000 restarted 5 (pos 3_000_000) (at 10 0)
      trading left_behind refl refl starts_again
