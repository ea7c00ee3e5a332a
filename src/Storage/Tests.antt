-- ===== src/Storage/Tests.antt =====
-- A purchase and a sale of one day, and each theorem at an input that meets its hypotheses.
use korean_stock_trading_sys.Common.Dict.{is_in}
use korean_stock_trading_sys.Common.{
  ℕ, ◌≡◌, refl, Bool, true, false, pos, none, some, List, [], ◌∷◌, String,
}
use korean_stock_trading_sys.Decimal.{literal}
use korean_stock_trading_sys.Clock.{Datetime, kst, clock_time}
use korean_stock_trading_sys.Symbol.{full_match}
use korean_stock_trading_sys.Signal.{take_profit}
use korean_stock_trading_sys.Executor
use korean_stock_trading_sys.Executor.{EntryEvent, ExitEvent}
use korean_stock_trading_sys.Storage as S
use korean_stock_trading_sys.Storage.{
  OpenPositionRow, OrderRow, Recorder, Op, entry_op, pnl_op, fresh, new_recorder, accepts,
  has_number, key_lt, of_session, open_row_ok, on_success, insert_order, record_entry, record_exit,
  values, load_open_positions, load_daily_pnl,
}
use korean_stock_trading_sys.Storage.Alarms.{noted, due, times_in, critical_once_a_run}
use korean_stock_trading_sys.Storage.Replay.{Event, bought, sold, notes, note, lots_of}
use korean_stock_trading_sys.Storage.Day.{purchases, profit, is_sold, load-notes}

abbrev at : ℕ → ℕ → Datetime
at h m = record { date = 739_000; time = clock_time h m; offset = kst }

abbrev entered : String → String → Datetime → EntryEvent
entered symbol number ts = record {
  symbol = symbol;
  qty = pos 10;
  fill_price = literal 10_010 0;
  ref_price = literal 10_000 0;
  timestamp = ts;
  order_number = number;
}

abbrev left : ExitEvent
left = record {
  symbol = "005930";
  qty = pos 10;
  fill_price = literal 10_300 0;
  reason = take_profit;
  net_pnl_krw = pos 2_500;
  timestamp = at 10 0;
  order_number = "A3";
}

abbrev day : List Event
day =
    bought (entered "005930" "A1" (at 9 31))
    ∷ bought (entered "000660" "A2" (at 9 32))
    ∷ sold left
    ∷ []

-- A row of the day before.
abbrev old_row : OrderRow
old_row = record {
  order_number = "A0";
  session_date = 738_999;
  symbol = "005930";
  side = Executor.buy;
  qty = some (pos 1);
  fill_price = none;
  ref_price = none;
  exit_reason = none;
  net_pnl_krw = S.null;
  filled_at = S.stamp (at 9 31);
}

abbrev ledger : Recorder
ledger = fresh 5 (old_row ∷ []) []

load-notes_example :
    let snapshot = (load_daily_pnl 739_000 false (notes day ledger)).0 in
    ((load_open_positions 739_000 false (notes day ledger)).0 ≡ values (lots_of day []))
    × (snapshot.entries_today ≡ purchases day)
    × (snapshot.realized_pnl_krw ≡ profit day)
    × ((t : String) → is_in t snapshot.closed_symbols ≡ is_sold t day)
unfolding note record_entry record_exit insert_order on_success accepts has_number key_lt of_session
    open_row_ok full_match
load-notes_example = load-notes 739_000 (at 9 0) day ledger refl refl (
  record { of_day = refl; aware = refl; not_before = refl; accepted = refl; readable = refl },
  (
    record { of_day = refl; aware = refl; not_before = refl; accepted = refl; readable = refl },
    (record { of_day = refl; aware = refl; not_before = refl; accepted = refl; readable = tt }, tt),
  ),
)

abbrev outcomes : List (Op × Bool)
outcomes =
    (entry_op, false)
    ∷ (pnl_op, false)
    ∷ (entry_op, false)
    ∷ (entry_op, false)
    ∷ (entry_op, true)
    ∷ (entry_op, false)
    ∷ (entry_op, false)
    ∷ []

critical_once_a_run_example :
    times_in entry_op (noted outcomes (fresh 2 [] [])).criticals ≡ due entry_op 2 0 outcomes
unfolding new_recorder
critical_once_a_run_example = critical_once_a_run entry_op outcomes 2 [] [] (fresh 2 [] []) refl

two_runs : due entry_op 2 0 outcomes ≡ 2
unfolding due
two_runs = refl
