-- ===== src/Realtime.antt =====
-- data/realtime.py: the store of the last trades, which puts ticks together to bars of a minute. A
-- handle of python-kis, a subscription's or the connection's, is left out, so are the threads: a tick,
-- a turn of the polling loop and a call of the public methods are steps that follow each other.
pub mod Runs
mod Tests
use mathlib.Core.Option.{Option, none, some}
use korean_stock_trading_sys.Common.{
  ℕ, ◌+◌, ◌-◌, ◌%◌, Bool, true, false, not, ◌&&◌, List, [], ◌∷◌, ◌++◌, String, leb_ℤ, if◌then◌else◌,
  ◌==◌, map,
}
use korean_stock_trading_sys.Common.Dict.{Dict, get, put, remove, contains}
use korean_stock_trading_sys.Common.Exec.{Result, ok, err, Exec}
use korean_stock_trading_sys.Decimal.{Decimal, le}
use korean_stock_trading_sys.Symbol.{line_match}
use korean_stock_trading_sys.Clock.{Datetime, instant, is_naive, kst}
use korean_stock_trading_sys.Signal.{MinuteBar}

pub record TickQuote : Type 0 where
  pub symbol : String
  pub price : Decimal
  pub ts : Datetime

pub record BarAccumulator : Type 0 where
  pub last_tick : Option TickQuote
  pub current_bar : Option MinuteBar
  pub closed_bars : List MinuteBar

-- `_BarAccumulator()`
abbrev pub empty_accumulator : BarAccumulator
empty_accumulator = record { last_tick = none; current_bar = none; closed_bars = [] }

pub data Mode : Type 0 where
  idle websocket polling : Mode

pub record RealtimeDataStore : Type 0 where
  pub accumulators : Dict BarAccumulator
  pub mode : Mode
  pub started : Bool
  pub closed : Bool
  pub polling_consecutive_failures : ℕ

-- The `RealtimeDataError`s.
pub data RealtimeError : Type 0 where
  is_closed started_twice bad_symbol no_live_keys : RealtimeError

abbrev pub new_store : RealtimeDataStore
new_store = record {
  accumulators = [];
  mode = idle;
  started = false;
  closed = false;
  polling_consecutive_failures = 0;
}

-- `_floor_to_minute`
abbrev pub minute : ℕ
minute = 60_000_000

unfoldable pub floor_to_minute : Datetime → Datetime
floor_to_minute ts = record {
  date = ts.date;
  time = ts.time - ts.time % minute;
  offset = elim ts.offset [ none ↦ kst | some z ↦ some z ];
}

-- `==` of two aware times.
abbrev pub same_instant : Datetime → Datetime → Bool
same_instant a b = leb_ℤ (instant a) (instant b) && leb_ℤ (instant b) (instant a)

unfoldable pub new_bar : TickQuote → Datetime → MinuteBar
new_bar tick bar_time = record {
  symbol = tick.symbol;
  bar_time = bar_time;
  open_price = tick.price;
  high = tick.price;
  low = tick.price;
  close = tick.price;
  volume = 0;
}

unfoldable pub extend_bar : MinuteBar → TickQuote → MinuteBar
extend_bar bar tick = record bar {
  high = if le tick.price bar.high then bar.high else tick.price;
  low = if le bar.low tick.price then bar.low else tick.price;
  close = tick.price;
}

-- `_on_tick` behind the lookup of the symbol.
unfoldable pub take_tick : TickQuote → BarAccumulator → BarAccumulator
take_tick tick acc =
    let bar_time = floor_to_minute tick.ts in
    elim acc.current_bar [
      | none ↦ record acc { last_tick = some tick; current_bar = some (new_bar tick bar_time) }
      | some current ↦
          if same_instant bar_time current.bar_time
          then record acc { last_tick = some tick; current_bar = some (extend_bar current tick) }
          else record {
            last_tick = some tick;
            current_bar = some (new_bar tick bar_time);
            closed_bars = acc.closed_bars ++ (current ∷ []);
          }
    ]

-- A tick for a symbol without a subscription is dropped.
unfoldable pub on_tick : TickQuote → RealtimeDataStore → RealtimeDataStore
on_tick tick s = elim (get tick.symbol s.accumulators) [
  | none ↦ s
  | some acc ↦ record s { accumulators = put tick.symbol (take_tick tick acc) s.accumulators }
]

-- The public methods, behind `_require_open`.
unfoldable pub subscribe : String → Exec RealtimeDataStore RealtimeError (Unit {0})
subscribe symbol s =
    if s.closed
    then (err is_closed, s)
    else if not (line_match symbol)
    then (err bad_symbol, s)
    else if contains symbol s.accumulators
    then (ok tt, s)
    else (ok tt, record s { accumulators = put symbol empty_accumulator s.accumulators })

unfoldable pub unsubscribe : String → Exec RealtimeDataStore RealtimeError (Unit {0})
unsubscribe symbol s =
    if s.closed
    then (err is_closed, s)
    else (ok tt, record s { accumulators = remove symbol s.accumulators })

unfoldable pub get_current_price :
    String → RealtimeDataStore → Result RealtimeError (Option TickQuote)
get_current_price symbol s =
    if s.closed
    then err is_closed
    else elim (get symbol s.accumulators) [ none ↦ ok none | some acc ↦ ok acc.last_tick ]

unfoldable pub get_current_bar :
    String → RealtimeDataStore → Result RealtimeError (Option MinuteBar)
get_current_bar symbol s =
    if s.closed
    then err is_closed
    else elim (get symbol s.accumulators) [ none ↦ ok none | some acc ↦ ok acc.current_bar ]

unfoldable pub get_minute_bars : String → RealtimeDataStore → Result RealtimeError (List MinuteBar)
get_minute_bars symbol s =
    if s.closed
    then err is_closed
    else elim (get symbol s.accumulators) [ none ↦ ok [] | some acc ↦ ok acc.closed_bars ]

-- `start`: whether the settings have the live keys, and whether the connection stands.
unfoldable pub start : Bool → Bool → Exec RealtimeDataStore RealtimeError (Unit {0})
start has_live_keys connects s =
    if s.closed
    then (err is_closed, s)
    else if s.started
    then (err started_twice, s)
    else if not has_live_keys
    then (err no_live_keys, record s { started = true })
    else (ok tt, record s { started = true; mode = if connects then websocket else polling })

unfoldable pub close : RealtimeDataStore → RealtimeDataStore
close s = record s { closed = true }

-- The critical line stands where the count reaches the threshold.
abbrev pub failure_alert_threshold : ℕ
failure_alert_threshold = 5

-- `_record_sweep_outcome`, with whether it writes the critical line.
unfoldable pub record_sweep_outcome :
    List String → Bool → RealtimeDataStore → Bool × RealtimeDataStore
record_sweep_outcome [] succeeded s = (false, s)
record_sweep_outcome (k ∷ ks) true s = (false, record s { polling_consecutive_failures = 0 })
record_sweep_outcome (k ∷ ks) false s =
    let n = s.polling_consecutive_failures + 1 in
    (n == failure_alert_threshold, record s { polling_consecutive_failures = n })

-- One turn of `_polling_loop` while the store is open: `ask` is `_poll_once`, none where it raises or
-- finds no price.
unfoldable pub poll_all :
    (String → Option TickQuote) → List String → RealtimeDataStore → Bool × RealtimeDataStore
poll_all ask [] s = (false, s)
poll_all ask (k ∷ ks) s = elim (ask k) [
  | none ↦ poll_all ask ks s
  | some tick ↦ (true, (poll_all ask ks (on_tick tick s)).1)
]

unfoldable pub poll_sweep :
    (String → Option TickQuote) → RealtimeDataStore → Bool × RealtimeDataStore
poll_sweep ask s =
    let symbols = map (λ e. e.0) s.accumulators in
    let r = poll_all ask symbols s in record_sweep_outcome symbols r.0 r.1
