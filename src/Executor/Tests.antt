-- ===== src/Executor/Tests.antt =====
-- A broker that fills nothing until the time-out and one that fails twice, and each theorem at an
-- input that meets its hypotheses.
use korean_stock_trading_sys.Common.{
  ℕ, ◌+◌, ◌≤◌, ◌≡◌, refl, true, false, ℤ, pos, none, List, [], ◌∷◌, arith, ltb, if◌then◌else◌,
}
use korean_stock_trading_sys.Common.Dict.{Dict, get}
use korean_stock_trading_sys.Common.Exec.{ok, err, Result}
use korean_stock_trading_sys.Decimal.{literal}
use korean_stock_trading_sys.Clock.{Datetime, kst, clock_time}
use korean_stock_trading_sys.Signal.{EntrySignal, ExitSignal, stop_loss}
use korean_stock_trading_sys.Risk.{new_manager, default_config}
use korean_stock_trading_sys.Orb.{OrbStrategy, new_strategy}
use korean_stock_trading_sys.Engine.{orb_strategy}
use korean_stock_trading_sys.Executor.{
  buy, OrderTicket, Fault, kis_client_error, Outside, ExecutorConfig, Executor, partial,
  with_backoff, exceeded,
}
use korean_stock_trading_sys.Executor.Orders.{resolve_fill, poll, find_order}
use korean_stock_trading_sys.Executor.Sweep.{mismatches}
use korean_stock_trading_sys.Executor.Reconcile.{Agree, mismatches-Agree}
use korean_stock_trading_sys.Executor.InSync.{InSync}
use korean_stock_trading_sys.Executor.Days.{
  Call, start_day, sweep, force_close, calls, calls-InSync,
}
use korean_stock_trading_sys.Executor.Calls.{AllFail, with_backoff_attempts}
use korean_stock_trading_sys.Executor.Polls.{Ticks, IsDone, resolve_fill-IsDone}
use korean_stock_trading_sys.Common.{◌+ℤ◌, ◌-ℤ◌, some, negsuc}
use korean_stock_trading_sys.Common.Dict.{put}
use korean_stock_trading_sys.Decimal.{mul, sub, add, fix, to_int}
use korean_stock_trading_sys.Symbol.{full_match, line_match}
use korean_stock_trading_sys.Risk
use korean_stock_trading_sys.Risk.{collect, halt_threshold_krw}
use korean_stock_trading_sys.Orb.{OrbError, restore_long_position, mark_session_closed, in_session}
use korean_stock_trading_sys.Executor.Restore.{
  OpenPosition, orb_restorer, restore_session, restore_session-InSync, restore_longs, mark_closed,
  effective_closed, is_open, subscribe_all, lots_of,
}

-- The outside is its time: a pending order of 3 of 10 shares, an account with five million won, no
-- bars.
abbrev slow : Outside ℕ
slow = record {
  submit_buy = λ s q w. (ok (record { order_number = "A1"; symbol = s; side = buy; qty = q }), w);
  submit_sell = λ s q w. (ok (record { order_number = "A1"; symbol = s; side = buy; qty = q }), w);
  get_pending_orders = λ w. (
    ok (
        record {
          order_number = "A1";
          symbol = "005930";
          side = buy;
          qty_ordered = 10;
          qty_filled = 3;
          qty_remaining = 7;
        }
        ∷ []),
    w,
  );
  cancel_order = λ n w. (ok tt, w);
  get_balance = λ w. (ok (record { withdrawable = pos 5_000_000; holdings = [] }), w);
  get_minute_bars = λ s w. (ok [], w);
  subscribe = λ s w. (ok tt, w);
  unsubscribe = λ s w. (ok tt, w);
  clock = λ w. (w, w);
  sleep = λ d w. w + d;
}

abbrev config : ExecutorConfig
config = record {
  cash_buffer_pct = literal 5 3;
  order_fill_timeout = 4;
  order_poll_interval = 2;
  slippage_rate = literal 1 3;
  commission_rate = literal 15 5;
  sell_tax_rate = literal 18 4;
  backoff_max_attempts = 3;
  backoff_initial = 1;
}

abbrev idle : Executor ℕ OrbStrategy
idle = record {
  world = 100;
  strategy = new_strategy none;
  risk = new_manager default_config;
  last_processed_bar_time = [];
  open_lots = [];
  halt = false;
  last_reconcile = none;
  sweep_entry_events = [];
  sweep_exit_events = [];
  pending_signals = [];
}

abbrev ticket : OrderTicket
ticket = record { order_number = "A1"; symbol = "005930"; side = buy; qty = pos 10 }

partly_filled :
    resolve_fill ℕ OrbStrategy (Unit {0}) slow config 5 ticket idle
    ≡ (ok (record { filled_qty = pos 3; status = partial }), record idle { world = 104 })
unfolding resolve_fill poll find_order with_backoff
partly_filled = refl

abbrev slow-Ticks : Ticks slow
slow-Ticks = record {
  time = λ w. w;
  reads = λ w. (refl, omega arith);
  sleeps = λ d w. omega arith;
  asks = λ w. omega arith;
}

resolve_fill-IsDone_example :
    IsDone ℕ OrbStrategy
      (Unit {0})
      slow
      config
      slow-Ticks
      (resolve_fill ℕ OrbStrategy (Unit {0}) slow config 5 ticket idle).0
resolve_fill-IsDone_example =
    resolve_fill-IsDone ℕ OrbStrategy (Unit {0}) slow config slow-Ticks ticket idle (omega arith)

-- A call that fails before the time 3.
abbrev flaky : ℕ → Result Fault ℕ × ℕ
flaky w = (if ltb w 3 then err kis_client_error else ok w, w)

with_backoff_attempts_example :
    ((v : ℕ)
      → 2 ≤ 3
      → AllFail ℕ ℕ slow 1 flaky 2 0 0
      → (flaky 3).0 ≡ ok v
      → with_backoff slow 1 flaky 3 0 0 ≡ (ok v, 3))
    × (AllFail ℕ ℕ slow 1 flaky 4 0 0 → (with_backoff slow 1 flaky 3 0 0).0 ≡ err exceeded)
with_backoff_attempts_example = with_backoff_attempts ℕ ℕ slow 1 flaky 3 2 0 0

abbrev at : Datetime
at = record { date = 739_000; time = clock_time 9 30; offset = kst }

abbrev signal : EntrySignal
signal = record {
  symbol = "005930";
  price = literal 10_200 0;
  ts = at;
  stop_price = literal 10_047_000 3;
  take_price = literal 10_506_000 3;
}

abbrev stopped : ExitSignal
stopped = record { symbol = "005930"; price = literal 10_047_000 3; ts = at; reason = stop_loss }

abbrev halted : Executor ℕ OrbStrategy
halted = record idle { halt = true }

abbrev broker : Dict ℤ
broker = ("005930", pos 10) ∷ []

abbrev held : Dict ℤ
held = ("005930", pos 10) ∷ ("000660", pos 3) ∷ []

mismatches-Agree_example :
    (mismatches broker held ≡ [] → Agree broker held)
    × (Agree broker held → mismatches broker held ≡ [])
mismatches-Agree_example = mismatches-Agree broker held

abbrev day : List Call
day = start_day 739_000 (pos 5_000_000) ∷ sweep 5 at ∷ force_close 5 at ∷ []

calls-InSync_example : InSync (calls ℕ (orb_strategy none) slow config ("005930" ∷ []) day idle)
unfolding new_manager
calls-InSync_example = calls-InSync ℕ (orb_strategy none) slow config ("005930" ∷ []) day idle tt

abbrev open_position : OpenPosition
open_position = record {
  symbol = "005930";
  qty = pos 10;
  entry_price = literal 10_210 0;
  entry_ts = at;
}

restores :
    (restore_session ℕ OrbStrategy OrbError slow config
      (some orb_restorer)
      739_000
      (pos 5_000_000)
      (open_position ∷ [])
      ("000660" ∷ [])
      (pos 2)
      (negsuc 99)
      idle).0
    ≡ ok tt
unfolding restore_session collect new_manager full_match line_match get put halt_threshold_krw mul
    sub add fix to_int ◌+ℤ◌ ◌-ℤ◌ Risk.restore_session restore_longs mark_closed effective_closed
    is_open restore_long_position mark_session_closed in_session subscribe_all lots_of
restores = refl

restore_session-InSync_example :
    InSync
      (restore_session ℕ OrbStrategy OrbError slow config
        (some orb_restorer)
        739_000
        (pos 5_000_000)
        (open_position ∷ [])
        ("000660" ∷ [])
        (pos 2)
        (negsuc 99)
        idle).1
restore_session-InSync_example =
    restore_session-InSync ℕ OrbStrategy OrbError slow config (some orb_restorer) 739_000
      (pos 5_000_000) (open_position ∷ []) ("000660" ∷ []) (pos 2) (negsuc 99) idle restores
