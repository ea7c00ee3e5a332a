-- ===== src/Storage.antt =====
-- storage/db.py: the ledger that records fills and daily summaries and reads the day of a restarted
-- process back. A table is its rows in the order of their rowid; whether sqlite3 raises at a call is
-- an argument of the call. Locks, pragmas and the schema are left out.
pub mod Alarms
pub mod Rows
pub mod Replay
pub mod Day
mod Tests
use Prim.Native.String.{compare}
use Prim.Native.Nat.{Ordering}
use text.Mathlib.Text.{◌==◌}
use korean_stock_trading_sys.Common.{
  ℕ, suc, ◌+◌, ◌-◌, ◌^◌, Bool, true, false, not, ◌&&◌, ◌||◌, ℤ, pos, negsuc, leb_ℤ, ltb_ℤ, ◌+ℤ◌,
  Option, none, some, List, [], ◌∷◌, ◌++◌, map, String, ltb, leb, if◌then◌else◌,
}
use korean_stock_trading_sys.Common as C
use korean_stock_trading_sys.Common.Dict.{Dict, put, remove}
use korean_stock_trading_sys.Decimal.{Decimal, not_positive}
use korean_stock_trading_sys.Symbol.{full_match}
use korean_stock_trading_sys.Clock.{Datetime, is_naive}
use korean_stock_trading_sys.Signal.{ExitReason}
use korean_stock_trading_sys.Executor.{Side, buy, sell, EntryEvent, ExitEvent}

-- A text that the column holds: what orders it, and what its parser makes of it, if it takes it.
pub record Stamp : Type 0 where
  pub key : List ℕ
  pub value : Option Datetime

-- `isoformat()` of an aware time. Its text orders by the local date and time and then by the offset.
abbrev pub offset_key : Option ℤ → List ℕ
offset_key none = []
offset_key (some (pos n)) = 0 ∷ n ∷ []
offset_key (some (negsuc n)) = 1 ∷ n ∷ []

abbrev pub stamp : Datetime → Stamp
stamp ts = record { key = ts.date ∷ ts.time ∷ offset_key ts.offset; value = some ts }

-- A row of the table `orders`. `none` is a text that `int`, `Decimal` or `fromisoformat` refuses;
-- a number may be NULL too.
pub data Cell : Type 0 where
  null unreadable : Cell
  whole : ℤ → Cell

pub record OrderRow : Type 0 where
  pub order_number : String
  pub session_date : ℕ
  pub symbol : String
  pub side : Side
  pub qty : Option ℤ
  pub fill_price : Option Decimal
  pub ref_price : Option Decimal
  pub exit_reason : Option ExitReason
  pub net_pnl_krw : Cell
  pub filled_at : Stamp

-- `DailySummary` of monitor/notifier.py; the ratio is a float, by its bits.
pub record DailySummary : Type 0 where
  pub session_date : ℕ
  pub starting_capital_krw : Option ℤ
  pub realized_pnl_krw : ℤ
  pub realized_pnl_pct : Option ℕ
  pub entries_today : ℤ
  pub halted : Bool
  pub mismatch_symbols : List String

pub record DailyRow : Type 0 where
  pub summary : DailySummary
  pub recorded_at : Datetime

-- The operations whose failures are counted.
pub data Op : Type 0 where
  entry_op exit_op summary_op open_op pnl_op : Op

abbrev pub op_index : Op → ℕ
op_index entry_op = 0
op_index exit_op = 1
op_index summary_op = 2
op_index open_op = 3
op_index pnl_op = 4

abbrev pub same_op : Op → Op → Bool
same_op a b = C.◌==◌ (op_index a) (op_index b)

pub record Alarm : Type 0 where
  pub failures : ℕ
  pub emitted : Bool

-- `criticals` is what `logger.critical` was told, the last first.
pub record Recorder : Type 0 where
  pub closed : Bool
  pub orders : List OrderRow
  pub daily : List DailyRow
  pub alarms : Op → Alarm
  pub threshold : ℕ
  pub criticals : List Op

abbrev pub quiet : Alarm
quiet = record { failures = 0; emitted = false }

-- `SqliteTradingRecorder(...)` on the tables that the file holds; `none` is its `RuntimeError`.
abbrev pub fresh : ℕ → List OrderRow → List DailyRow → Recorder
fresh threshold orders daily = record {
  closed = false;
  orders = orders;
  daily = daily;
  alarms = λ _. quiet;
  threshold = threshold;
  criticals = [];
}

unfoldable pub new_recorder : ℕ → List OrderRow → List DailyRow → Option Recorder
new_recorder threshold orders daily =
    if leb threshold 0 then none else some (fresh threshold orders daily)

abbrev pub set_alarm : Op → Alarm → (Op → Alarm) → Op → Alarm
set_alarm op a f = λ o. if same_op o op then a else f o

unfoldable pub on_success : Op → Recorder → Recorder
on_success op r = record r { alarms = set_alarm op quiet r.alarms }

unfoldable pub maybe_emit_critical : Op → Recorder → Recorder
maybe_emit_critical op r =
    let a = r.alarms op in
    if leb r.threshold a.failures && not a.emitted
    then record r {
      alarms = set_alarm op (record a { emitted = true }) r.alarms;
      criticals = op ∷ r.criticals;
    }
    else r

abbrev pub count_failure : Op → Recorder → Recorder
count_failure op r =
    let a = r.alarms op in
    record r { alarms = set_alarm op (record a { failures = a.failures + 1 }) r.alarms }

unfoldable pub on_failure : Op → Recorder → Recorder
on_failure op r = maybe_emit_critical op (count_failure op r)

-- The integers that sqlite3 takes.
abbrev pub fits_int64 : ℤ → Bool
fits_int64 z = leb_ℤ z (pos (2 ^ 63 - 1)) && leb_ℤ (negsuc (2 ^ 63 - 1)) z

abbrev pub fits_cell : Cell → Bool
fits_cell (whole z) = fits_int64 z
fits_cell null = true
fits_cell unreadable = true

abbrev pub fits_qty : Option ℤ → Bool
fits_qty (some q) = ltb_ℤ (pos 0) q && fits_int64 q
fits_qty none = false

unfoldable pub has_number : String → List OrderRow → Bool
has_number n [] = false
has_number n (row ∷ rows) = row.order_number == n || has_number n rows

-- What the table's checks and its primary key take.
unfoldable pub accepts : OrderRow → List OrderRow → Bool
accepts row rows =
    fits_qty row.qty && fits_cell row.net_pnl_krw && not (has_number row.order_number rows)

-- `try: INSERT ... except Exception`
unfoldable pub insert_order : Op → Bool → OrderRow → Recorder → Recorder
insert_order op fault row r =
    if not fault && accepts row r.orders
    then on_success op (record r { orders = r.orders ++ (row ∷ []) })
    else on_failure op r

abbrev pub entry_row : EntryEvent → OrderRow
entry_row e = record {
  order_number = e.order_number;
  session_date = e.timestamp.date;
  symbol = e.symbol;
  side = buy;
  qty = some e.qty;
  fill_price = some e.fill_price;
  ref_price = some e.ref_price;
  exit_reason = none;
  net_pnl_krw = null;
  filled_at = stamp e.timestamp;
}

abbrev pub exit_row : ExitEvent → OrderRow
exit_row e = record {
  order_number = e.order_number;
  session_date = e.timestamp.date;
  symbol = e.symbol;
  side = sell;
  qty = some e.qty;
  fill_price = some e.fill_price;
  ref_price = some e.fill_price;
  exit_reason = some e.reason;
  net_pnl_krw = whole e.net_pnl_krw;
  filled_at = stamp e.timestamp;
}

unfoldable pub record_entry : Bool → EntryEvent → Recorder → Recorder
record_entry fault e r =
    if r.closed
    then r
    else if is_naive e.timestamp
    then on_failure entry_op r
    else insert_order entry_op fault (entry_row e) r

unfoldable pub record_exit : Bool → ExitEvent → Recorder → Recorder
record_exit fault e r =
    if r.closed
    then r
    else if is_naive e.timestamp
    then on_failure exit_op r
    else insert_order exit_op fault (exit_row e) r

-- `INSERT OR REPLACE` on the primary key `session_date`.
unfoldable pub replace_daily : DailyRow → List DailyRow → List DailyRow
replace_daily row [] = row ∷ []
replace_daily row (x ∷ xs) =
    let rest = replace_daily row xs in
    if C.◌==◌ x.summary.session_date row.summary.session_date then xs ++ (row ∷ []) else x ∷ rest

abbrev pub fits_summary : DailySummary → Bool
fits_summary s =
    elim s.starting_capital_krw [ none ↦ true | some z ↦ fits_int64 z ]
    && fits_int64 s.realized_pnl_krw
    && fits_int64 s.entries_today

unfoldable pub record_daily_summary : Bool → Datetime → DailySummary → Recorder → Recorder
record_daily_summary fault now s r =
    if r.closed
    then r
    else if not fault && fits_summary s
    then on_success summary_op
        (record r { daily = replace_daily (record { summary = s; recorded_at = now }) r.daily })
    else on_failure summary_op r

pub record OpenPositionRow : Type 0 where
  pub symbol : String
  pub qty : ℤ
  pub entry_price : Decimal
  pub entry_ts : Datetime
  pub order_number : String

-- `OpenPositionRow.__post_init__`
unfoldable pub open_row_ok : OpenPositionRow → Bool
open_row_ok p =
    full_match p.symbol
    && ltb_ℤ (pos 0) p.qty
    && not (not_positive p.entry_price)
    && not (is_naive p.entry_ts)
    && not (p.order_number == "")

abbrev pub open_row : OrderRow → ℤ → Decimal → Datetime → OpenPositionRow
open_row row q price ts = record {
  symbol = row.symbol;
  qty = q;
  entry_price = price;
  entry_ts = ts;
  order_number = row.order_number;
}

-- The columns of a purchase, read.
unfoldable pub read_open : OrderRow → Option OpenPositionRow
read_open row = elim row.qty [
  | none ↦ none
  | some q ↦ elim row.fill_price [
    | none ↦ none
    | some price ↦ elim row.filled_at.value [
      | none ↦ none
      | some ts ↦
          if open_row_ok (open_row row q price ts) then some (open_row row q price ts) else none
    ]
  ]
]

-- The body of the loop over the rows; `none` where it raises.
unfoldable pub replay_row : Side → OrderRow → Dict OpenPositionRow → Option (Dict OpenPositionRow)
replay_row buy row d = elim (read_open row) [ none ↦ none | some p ↦ some (put row.symbol p d) ]
replay_row sell row d = some (remove row.symbol d)

-- With the number of the rows that are skipped.
unfoldable pub replay : List OrderRow → Dict OpenPositionRow → Dict OpenPositionRow × ℕ
replay [] d = (d, 0)
replay (row ∷ rows) d = elim (replay_row row.side row d) [
  | none ↦ ((replay rows d).0, suc (replay rows d).1)
  | some d' ↦ replay rows d'
]

-- `WHERE session_date = ?`
unfoldable pub of_session : ℕ → List OrderRow → List OrderRow
of_session date [] = []
of_session date (row ∷ rows) =
    let rest = of_session date rows in if C.◌==◌ row.session_date date then row ∷ rest else rest

unfoldable pub key_lt : List ℕ → List ℕ → Bool
key_lt [] [] = false
key_lt [] (y ∷ ys) = true
key_lt (x ∷ xs) [] = false
key_lt (x ∷ xs) (y ∷ ys) = ltb x y || (C.◌==◌ x y && key_lt xs ys)

-- `ORDER BY filled_at ASC, rowid ASC`: rows that arrive by rowid, each behind those not above it.
unfoldable pub insert_row : OrderRow → List OrderRow → List OrderRow
insert_row row [] = row ∷ []
insert_row row (x ∷ xs) =
    let rest = insert_row row xs in
    if key_lt row.filled_at.key x.filled_at.key then row ∷ x ∷ xs else x ∷ rest

unfoldable pub sort_rows : List OrderRow → List OrderRow → List OrderRow
sort_rows done [] = done
sort_rows done (row ∷ rows) = sort_rows (insert_row row done) rows

abbrev pub values {ℓ} : {V : Type ℓ} → Dict V → List V
values [] = []
values ((k, v) ∷ d) = v ∷ values d

abbrev pub settle : Op → ℕ → Recorder → Recorder
settle op failed r = if leb 1 failed then on_failure op r else on_success op r

unfoldable pub load_open_positions : ℕ → Bool → Recorder → List OpenPositionRow × Recorder
load_open_positions date fault r =
    if r.closed
    then ([], r)
    else if fault
    then ([], on_failure open_op r)
    else let out = replay (sort_rows [] (of_session date r.orders)) [] in
      (values out.0, settle open_op out.1 r)

pub record DailyPnlSnapshot : Type 0 where
  pub session_date : ℕ
  pub realized_pnl_krw : ℤ
  pub entries_today : ℕ
  pub closed_symbols : List String

-- A sorted tuple without repetitions, with one text more.
unfoldable pub insert_symbol : String → List String → List String
insert_symbol s [] = s ∷ []
insert_symbol s (x ∷ xs) =
    let rest = insert_symbol s xs in
    elim (compare s x) [ Ordering.lt ↦ s ∷ x ∷ xs | Ordering.eq ↦ x ∷ xs | Ordering.gt ↦ x ∷ rest ]

abbrev pub empty_pnl : ℕ → DailyPnlSnapshot
empty_pnl date = record {
  session_date = date;
  realized_pnl_krw = pos 0;
  entries_today = 0;
  closed_symbols = [];
}

-- One row of the day; `none` where `int(net_pnl)` raises.
unfoldable pub tally_row : Side → OrderRow → DailyPnlSnapshot → Option DailyPnlSnapshot
tally_row buy row s = some (record s { entries_today = s.entries_today + 1 })
tally_row sell row s = elim row.net_pnl_krw [
  | unreadable ↦ none
  | null ↦ some (record s { closed_symbols = insert_symbol row.symbol s.closed_symbols })
  | whole z ↦ some (record s {
    realized_pnl_krw = s.realized_pnl_krw +ℤ z;
    closed_symbols = insert_symbol row.symbol s.closed_symbols;
  })
]

unfoldable pub tally : List OrderRow → DailyPnlSnapshot → DailyPnlSnapshot × ℕ
tally [] s = (s, 0)
tally (row ∷ rows) s = elim (tally_row row.side row s) [
  | none ↦ ((tally rows s).0, suc (tally rows s).1)
  | some s' ↦ tally rows s'
]

unfoldable pub load_daily_pnl : ℕ → Bool → Recorder → DailyPnlSnapshot × Recorder
load_daily_pnl date fault r =
    if r.closed
    then (empty_pnl date, r)
    else if fault
    then (empty_pnl date, on_failure pnl_op r)
    else let out = tally (of_session date r.orders) (empty_pnl date) in
      (out.0, settle pnl_op out.1 r)

-- `DailyPnlSnapshot.has_state`
abbrev pub has_state : DailyPnlSnapshot → Bool
has_state s =
    leb 1 s.entries_today
    || elim s.closed_symbols [ [] ↦ false | _ ∷ _ ↦ true ]
    || not (leb_ℤ s.realized_pnl_krw (pos 0) && leb_ℤ (pos 0) s.realized_pnl_krw)

-- `close`
abbrev pub close : Recorder → Recorder
close r = record r { closed = true }
