-- ===== src/Orb.antt =====
-- strategy/orb.py: the opening range breakout, a state machine for each symbol. Log calls are left
-- out. `DecimalException` has no case: finite values within the exponent range raise none here.
pub mod Cases
pub mod Invariant
pub mod Day
pub mod Entry
pub mod Close
mod Tests
use korean_stock_trading_sys.Common.{
  ℕ, ◌*◌, ◌+◌, Bool, true, false, not, ◌&&◌, ◌||◌, Option, none, some, List, [], ◌∷◌, String, ltb,
  leb, ◌==◌, if◌then◌else◌,
}
use korean_stock_trading_sys.Common.Dict.{Dict, get, put, remove}
use korean_stock_trading_sys.Common.Exec.{Result, ok, err, Exec}
use korean_stock_trading_sys.Decimal.{
  Decimal, literal, of_nat, mul, add, sub, lt, le, max_dec, min_dec, not_positive,
}
use korean_stock_trading_sys.Symbol.{line_match}
use korean_stock_trading_sys.Clock.{Datetime, clock_time, is_naive, before}
use korean_stock_trading_sys.Signal.{
  EntrySignal, ExitSignal, Signal, entry, exit, ExitReason, stop_loss, take_profit, force_close,
  MinuteBar,
}

-- The `RuntimeError`s, then the two `StrategyError`s.
pub data OrbError : Type 0 where
  bad_stop_loss bad_take_profit bad_opening bad_force_close : OrbError
  bad_symbol naive_ts time_reversed bad_entry_price : OrbError
  missing_lines missing_price : OrbError

pub record StrategyConfig : Type 0 where
  pub or_start : ℕ
  pub or_end : ℕ
  pub force_close_at : ℕ
  pub stop_loss_pct : Decimal
  pub take_profit_pct : Decimal

-- `StrategyConfig.__post_init__`
pub check_config : StrategyConfig → Result OrbError StrategyConfig
check_config c =
    if not_positive c.stop_loss_pct
    then err bad_stop_loss
    else if not_positive c.take_profit_pct
    then err bad_take_profit
    else if leb c.or_end c.or_start
    then err bad_opening
    else if leb c.force_close_at c.or_end
    then err bad_force_close
    else ok c

pub data PositionState : Type 0 where
  flat long closed : PositionState

pub record SymbolState : Type 0 where
  pub session_date : Option ℕ
  pub or_high : Option Decimal
  pub or_low : Option Decimal
  pub or_confirmed : Bool
  pub position_state : PositionState
  pub entry_price : Option Decimal
  pub stop_price : Option Decimal
  pub take_price : Option Decimal
  pub last_bar_time : Option Datetime
  pub last_close : Option Decimal
  pub or_missing_warned : Bool

-- `_SymbolState()`, and the same with the day that `reset` sets.
abbrev pub blank : Option ℕ → SymbolState
blank date = record {
  session_date = date;
  or_high = none;
  or_low = none;
  or_confirmed = false;
  position_state = flat;
  entry_price = none;
  stop_price = none;
  take_price = none;
  last_bar_time = none;
  last_close = none;
  or_missing_warned = false;
}

pub record OrbStrategy : Type 0 where
  pub config : StrategyConfig
  pub states : Dict SymbolState

-- `self._states.setdefault(symbol, _SymbolState())`
abbrev pub state_of : OrbStrategy → String → SymbolState
state_of s symbol = elim (get symbol s.states) [ none ↦ blank none | some st ↦ st ]

abbrev pub store : OrbStrategy → String → SymbolState → OrbStrategy
store s symbol st = record s { states = put symbol st s.states }

-- `if state.session_date is None or state.session_date != session: state.reset(session)`
unfoldable pub in_session : ℕ → SymbolState → SymbolState
in_session session st = elim st.session_date [
  | none ↦ blank (some session)
  | some d ↦ if d == session then st else blank (some session)
]

abbrev pub is_reversed : SymbolState → MinuteBar → Bool
is_reversed st bar = elim st.last_bar_time [ none ↦ false | some t ↦ before bar.bar_time t ]

-- A value so far and a new one, by `max` or `min`.
abbrev pub merge : (Decimal → Decimal → Decimal) → Option Decimal → Decimal → Decimal
merge f none x = x
merge f (some y) x = f y x

unfoldable pub accumulate_or : MinuteBar → SymbolState → SymbolState
accumulate_or bar st = record st {
  or_high = some (merge max_dec st.or_high bar.high);
  or_low = some (merge min_dec st.or_low bar.low);
}

-- The protective lines around an entry price.
abbrev pub stop_line : StrategyConfig → Decimal → Decimal
stop_line c price = mul price (sub (of_nat 1) c.stop_loss_pct)

abbrev pub take_line : StrategyConfig → Decimal → Decimal
take_line c price = mul price (add (of_nat 1) c.take_profit_pct)

abbrev pub Machine : Type 0
Machine = Result OrbError (List Signal) × SymbolState

unfoldable pub enter_long : StrategyConfig → MinuteBar → SymbolState → Machine
enter_long c bar st = (
  ok (
      entry (record {
        symbol = bar.symbol;
        price = bar.close;
        ts = bar.bar_time;
        stop_price = stop_line c bar.close;
        take_price = take_line c bar.close;
      })
      ∷ []),
  record st {
    position_state = long;
    entry_price = some bar.close;
    stop_price = some (stop_line c bar.close);
    take_price = some (take_line c bar.close);
  },
)

abbrev pub leaves : MinuteBar → Decimal → ExitReason → SymbolState → Machine
leaves bar price reason st = (
  ok (
      exit (record { symbol = bar.symbol; price = price; ts = bar.bar_time; reason = reason })
      ∷ []),
  record st { position_state = closed },
)

-- Both lines are there in the state `long`; where one is missing the source raises.
unfoldable pub lines : SymbolState → Option (Decimal × Decimal)
lines st = elim st.stop_price [
  | none ↦ none
  | some stop ↦ elim st.take_price [ none ↦ none | some take ↦ some (stop, take) ]
]

unfoldable pub check_exit : MinuteBar → SymbolState → Machine
check_exit bar st = elim (lines st) [
  | none ↦ (err missing_lines, st)
  | some (stop, take) ↦
      if le bar.low stop
      then leaves bar stop stop_loss st
      else if le take bar.high
      then leaves bar take take_profit st
      else (ok [], st)
]

-- The state `flat` behind the opening range.
unfoldable pub seek_entry : StrategyConfig → MinuteBar → SymbolState → Machine
seek_entry c bar st =
    if leb c.force_close_at bar.bar_time.time then (ok [], st) else elim st.or_high [
      | none ↦ (ok [], record st { or_missing_warned = true })
      | some high ↦ if lt high bar.close then enter_long c bar st else (ok [], st)
    ]

unfoldable pub dispatch_position :
    StrategyConfig → MinuteBar → PositionState → SymbolState → Machine
dispatch_position c bar flat st = seek_entry c bar st
dispatch_position c bar long st = check_exit bar st
dispatch_position c bar closed st = (ok [], st)

unfoldable pub dispatch_bar : StrategyConfig → MinuteBar → SymbolState → Machine
dispatch_bar c bar st =
    let t = bar.bar_time.time in
    if ltb t c.or_start
    then (ok [], st)
    else if ltb t c.or_end
    then (ok [], accumulate_or bar st)
    else dispatch_position c bar st.position_state (record st { or_confirmed = true })

abbrev pub observed : MinuteBar → SymbolState → SymbolState
observed bar st = record st { last_bar_time = some bar.bar_time; last_close = some bar.close }

-- The state of the bar's symbol is entered, and reset for a new day, before the order of time is
-- checked; both stay done if the check raises.
unfoldable pub on_bar : MinuteBar → Exec OrbStrategy OrbError (List Signal)
on_bar bar s =
    let st = in_session bar.bar_time.date (state_of s bar.symbol) in
    if not (line_match bar.symbol)
    then (err bad_symbol, s)
    else if is_naive bar.bar_time
    then (err naive_ts, s)
    else if is_reversed st bar
    then (err time_reversed, store s bar.symbol st)
    else let (r, st') = dispatch_bar s.config bar (observed bar st) in (r, store s bar.symbol st')

-- The price of a forced exit: the last close, or the entry price.
pub close_price : SymbolState → Option Decimal
close_price st = elim st.last_close [ some p ↦ some p | none ↦ st.entry_price ]

abbrev pub is_long : PositionState → Bool
is_long long = true
is_long _ = false

abbrev pub forced : Datetime → String → Decimal → Signal
forced now symbol price =
    exit (record { symbol = symbol; price = price; ts = now; reason = force_close })

-- `signals.append`, unless the loop raises.
abbrev pub prepend : Signal → Result OrbError (List Signal) → Result OrbError (List Signal)
prepend sig (ok sigs) = ok (sig ∷ sigs)
prepend sig (err e) = err e

-- The loop of `on_time`; what it closed before a raise stays closed.
unfoldable pub close_all :
    Datetime → Dict SymbolState → Result OrbError (List Signal) × Dict SymbolState
close_all now [] = (ok [], [])
close_all now ((symbol, st) ∷ rest) =
    let (r, rest') = close_all now rest in
    if is_long st.position_state
    then elim (close_price st) [
      | none ↦ (err missing_price, (symbol, st) ∷ rest)
      | some price ↦ (
        prepend (forced now symbol price) r,
        (symbol, record st { position_state = closed }) ∷ rest',
      )
    ]
    else (r, (symbol, st) ∷ rest')

unfoldable pub on_time : Datetime → Exec OrbStrategy OrbError (List Signal)
on_time now s =
    if is_naive now
    then (err naive_ts, s)
    else if ltb now.time s.config.force_close_at
    then (ok [], s)
    else let (r, states) = close_all now s.states in (r, record s { states = states })

unfoldable pub restore_long_position :
    String → Decimal → Datetime → Exec OrbStrategy OrbError (Unit {0})
restore_long_position symbol entry_price entry_ts s =
    if not (line_match symbol)
    then (err bad_symbol, s)
    else if is_naive entry_ts
    then (err naive_ts, s)
    else if not_positive entry_price
    then (err bad_entry_price, s)
    else (
      ok tt,
      store s symbol (record (in_session entry_ts.date (state_of s symbol)) {
        position_state = long;
        entry_price = some entry_price;
        stop_price = some (stop_line s.config entry_price);
        take_price = some (take_line s.config entry_price);
        or_confirmed = true;
      }),
    )

remove_all : List String → Dict SymbolState → Dict SymbolState
remove_all [] d = d
remove_all (k ∷ ks) d = remove_all ks (remove k d)

-- No symbols means all of them.
unfoldable pub reset_session : List String → OrbStrategy → OrbStrategy
unfolding remove_all
reset_session [] s = record s { states = [] }
reset_session (k ∷ ks) s = record s { states = remove_all (k ∷ ks) s.states }

unfoldable pub mark_session_closed : String → ℕ → Exec OrbStrategy OrbError (Unit {0})
mark_session_closed symbol date s = if not (line_match symbol) then (err bad_symbol, s) else (
  ok tt,
  store s symbol (record (in_session date (state_of s symbol)) {
    position_state = closed;
    or_confirmed = true;
  }),
)

-- `StrategyConfig()`, and `ORBStrategy(config)` with no configuration given or with one.
abbrev pub default_config : StrategyConfig
default_config = record {
  or_start = clock_time 9 0;
  or_end = clock_time 9 30;
  force_close_at = clock_time 15 0;
  stop_loss_pct = literal 15 3;
  take_profit_pct = literal 30 3;
}

abbrev pub new_strategy : Option StrategyConfig → OrbStrategy
new_strategy none = record { config = default_config; states = [] }
new_strategy (some c) = record { config = c; states = [] }
