-- ===== src/Risk.antt =====
-- risk/manager.py: position sizing, the gate before an entry and the daily loss breaker. The log
-- calls and their texts are left out; an error is a constructor for each `raise`.
pub mod Gate
pub mod Sizing
pub mod Session
pub mod Protocol
pub mod Breaker
mod Tests
use korean_stock_trading_sys.Common.{
  ℕ, ◌+◌, Bool, true, false, not, ◌&&◌, ◌||◌, ℤ, pos, pos_part, neg_part, sub_ℕ, neg_ℤ, ltb_ℤ,
  leb_ℤ, ◌+ℤ◌, Option, none, some, List, [], ◌∷◌, String, ltb, leb, if◌then◌else◌, length,
}
use korean_stock_trading_sys.Common.Dict.{Dict, get, contains, put, remove}
use korean_stock_trading_sys.Common.Exec.{
  Result, ok, err, Exec, pure, raise, raise_if, gets, modify, continue, ◌>>=◌, ◌>>◌,
}
use korean_stock_trading_sys.Decimal.{
  Decimal, literal, of_int, of_nat, mul, lt, to_int, div, not_positive,
}
use korean_stock_trading_sys.Symbol.{full_match}
use korean_stock_trading_sys.Clock.{Datetime, is_naive}
use korean_stock_trading_sys.Signal.{EntrySignal}

pub data RejectReason : Type 0 where
  halted_daily_loss max_positions_reached daily_entry_cap : RejectReason
  duplicate_symbol insufficient_cash below_min_notional : RejectReason

-- `RuntimeError` with the field at fault, `RiskManagerError`, and Python's `DivisionByZero`.
pub data RiskError : Type 0 where
  bad_position_pct bad_daily_loss_limit bad_max_positions bad_daily_max_entries : RiskError
  bad_min_notional bad_capital bad_entries_today entries_below_open bad_symbol : RiskError
  duplicate_open session_missing bad_cash naive_ts bad_price bad_qty : RiskError
  no_session duplicate_fill not_held division_by_zero : RiskError

pub record RiskConfig : Type 0 where
  pub position_pct : Decimal
  pub max_positions : ℤ
  pub daily_loss_limit_pct : Decimal
  pub daily_max_entries : ℤ
  pub min_notional_krw : ℤ

-- `RiskConfig.__post_init__`
pub check_config : RiskConfig → Result RiskError RiskConfig
check_config c =
    if not_positive c.position_pct
    then err bad_position_pct
    else if not_positive c.daily_loss_limit_pct
    then err bad_daily_loss_limit
    else if leb_ℤ c.max_positions (pos 0)
    then err bad_max_positions
    else if leb_ℤ c.daily_max_entries (pos 0)
    then err bad_daily_max_entries
    else if leb_ℤ c.min_notional_krw (pos 0)
    then err bad_min_notional
    else ok c

pub record RiskDecision : Type 0 where
  pub approved : Bool
  pub qty : ℤ
  pub target_notional_krw : ℤ
  pub reason : Option RejectReason

pub record PositionRecord : Type 0 where
  pub symbol : String
  pub entry_price : Decimal
  pub qty : ℤ
  pub entry_ts : Datetime

pub record RiskManager : Type 0 where
  pub config : RiskConfig
  pub session_date : Option ℕ
  pub starting_capital_krw : Option ℤ
  pub daily_realized_pnl_krw : ℤ
  pub entries_today : ℕ
  pub active_positions : Dict PositionRecord
  pub halt_logged : Bool

-- `RiskManager.__init__`
unfoldable pub new_manager : RiskConfig → RiskManager
new_manager c = record {
  config = c;
  session_date = none;
  starting_capital_krw = none;
  daily_realized_pnl_krw = pos 0;
  entries_today = 0;
  active_positions = [];
  halt_logged = false;
}

abbrev pub Action : Type 0
Action = Exec RiskManager RiskError (Unit {0})

unfoldable pub start_session : ℕ → ℤ → Action
start_session session_date capital = do
  raise_if (leb_ℤ capital (pos 0)) bad_capital
  modify (λ m. record m {
    session_date = some session_date;
    starting_capital_krw = some capital;
    daily_realized_pnl_krw = pos 0;
    entries_today = 0;
    active_positions = [];
    halt_logged = false;
  })

abbrev pub capital_or_zero : Option ℤ → ℤ
capital_or_zero none = pos 0
capital_or_zero (some c) = c

-- `_halt_threshold_krw`; Python's `None or 0` is 0.
unfoldable pub halt_threshold_krw : RiskManager → ℤ
halt_threshold_krw m =
    neg_ℤ
      (to_int (mul (of_int (capital_or_zero m.starting_capital_krw)) m.config.daily_loss_limit_pct))

-- The session's capital, once a session has begun.
abbrev pub session_capital : RiskManager → Option ℤ
session_capital m = elim m.session_date [ none ↦ none | some _ ↦ m.starting_capital_krw ]

unfoldable pub is_halted : RiskManager → Bool
is_halted m = elim (session_capital m) [
  | none ↦ false
  | some _ ↦ leb_ℤ m.daily_realized_pnl_krw (halt_threshold_krw m)
]

-- The loop of `restore_session` over the open positions, with the dictionary so far, whose keys are
-- the symbols that it has seen.
unfoldable pub collect :
    List PositionRecord → Dict PositionRecord → Result RiskError (Dict PositionRecord)
collect [] active = ok active
collect (p ∷ ps) active =
    let rest = collect ps (put p.symbol p active) in
    if not (full_match p.symbol)
    then err bad_symbol
    else if contains p.symbol active
    then err duplicate_open
    else rest

abbrev pub restored : ℕ → ℤ → ℤ → ℤ → Dict PositionRecord → RiskManager → RiskManager
restored session_date capital entries pnl active m = record m {
  session_date = some session_date;
  starting_capital_krw = some capital;
  daily_realized_pnl_krw = pnl;
  entries_today = pos_part entries;
  active_positions = active;
  halt_logged = leb_ℤ pnl (halt_threshold_krw (record m { starting_capital_krw = some capital }));
}

unfoldable pub restore_session : ℕ → ℤ → List PositionRecord → ℤ → ℤ → Action
restore_session session_date capital open_list entries pnl = do
  raise_if (leb_ℤ capital (pos 0)) bad_capital
  raise_if (ltb_ℤ entries (pos 0)) bad_entries_today
  raise_if (ltb_ℤ entries (pos (length open_list))) entries_below_open
  active ← λ m. (collect open_list [], m)
  modify (restored session_date capital entries pnl active)

-- `_validate_signal`
unfoldable pub validate_signal : EntrySignal → Option RiskError
validate_signal s =
    if not (full_match s.symbol)
    then some bad_symbol
    else if is_naive s.ts
    then some naive_ts
    else if not_positive s.price
    then some bad_price
    else none

abbrev pub reject : RejectReason → ℤ → RiskDecision
reject r target = record {
  approved = false;
  qty = pos 0;
  target_notional_krw = target;
  reason = some r;
}

abbrev pub target_notional : RiskConfig → ℤ → ℤ
target_notional c capital = to_int (mul (of_int capital) c.position_pct)

-- The part of `evaluate_entry` behind the division.
unfoldable pub judge_notional : RiskConfig → EntrySignal → ℤ → ℤ → ℤ → RiskDecision
judge_notional c s cash target qty =
    let filled = mul (of_int qty) s.price in
    if lt filled (of_int c.min_notional_krw)
    then reject below_min_notional target
    else if lt (of_int cash) filled
    then reject insufficient_cash target
    else record { approved = true; qty = qty; target_notional_krw = target; reason = none }

-- The limits that do not look at the price, in the order of the source.
unfoldable pub limit_reason : RiskManager → EntrySignal → Option RejectReason
limit_reason m s =
    if is_halted m
    then some halted_daily_loss
    else if leb_ℤ m.config.daily_max_entries (pos m.entries_today)
    then some daily_entry_cap
    else if leb_ℤ m.config.max_positions (pos (length m.active_positions))
    then some max_positions_reached
    else if contains s.symbol m.active_positions
    then some duplicate_symbol
    else none

unfoldable pub judge : RiskManager → EntrySignal → ℤ → ℤ → Result RiskError RiskDecision
judge m s cash target = elim (limit_reason m s) [
  | some r ↦ ok (reject r target)
  | none ↦ elim (div (of_int target) s.price) [
    | none ↦ err division_by_zero
    | some q ↦ ok (judge_notional m.config s cash target (to_int q))
  ]
]

-- A verdict alone: the manager is not an output, as the source's method writes nothing.
unfoldable pub evaluate_entry : RiskManager → EntrySignal → ℤ → Result RiskError RiskDecision
evaluate_entry m s cash = elim (session_capital m) [
  | none ↦ err session_missing
  | some capital ↦ if ltb_ℤ cash (pos 0) then err bad_cash else elim (validate_signal s) [
    | some e ↦ err e
    | none ↦ judge m s cash (target_notional m.config capital)
  ]
]

unfoldable pub record_entry : String → Decimal → ℤ → Datetime → Action
record_entry symbol entry_price qty entry_ts = do
  m ← gets (λ m. m)
  raise_if (elim m.session_date [ none ↦ true | some _ ↦ false ]) no_session
  raise_if (not (full_match symbol)) bad_symbol
  raise_if (leb_ℤ qty (pos 0)) bad_qty
  raise_if (not_positive entry_price) bad_price
  raise_if (is_naive entry_ts) naive_ts
  raise_if (contains symbol m.active_positions) duplicate_fill
  modify (λ m. record m {
    active_positions =
        put symbol
          (record { symbol = symbol; entry_price = entry_price; qty = qty; entry_ts = entry_ts })
          m.active_positions;
    entries_today = m.entries_today + 1;
  })

unfoldable pub record_exit : String → ℤ → Action
record_exit symbol pnl = do
  m ← gets (λ m. m)
  raise_if (elim (session_capital m) [ none ↦ true | some _ ↦ false ]) no_session
  raise_if (not (full_match symbol)) bad_symbol
  raise_if (not (contains symbol m.active_positions)) not_held
  modify (λ m. record m {
    active_positions = remove symbol m.active_positions;
    daily_realized_pnl_krw = m.daily_realized_pnl_krw +ℤ pnl;
  })
  modify (λ m. record m {
    halt_logged = m.halt_logged || leb_ℤ m.daily_realized_pnl_krw (halt_threshold_krw m);
  })

-- `RiskConfig()`
abbrev pub default_config : RiskConfig
default_config = record {
  position_pct = literal 20 2;
  max_positions = pos 3;
  daily_loss_limit_pct = literal 2 2;
  daily_max_entries = pos 10;
  min_notional_krw = pos 100_000;
}
