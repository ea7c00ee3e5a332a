-- ===== src/RsiMr.antt =====
-- strategy/rsi_mr.py: mean reversion by the relative strength index of daily bars, over a universe of
-- symbols. Log calls are left out.
pub mod Cases
pub mod Baseline
pub mod Simulation
pub mod Ordered
pub mod Ledger
pub mod Follow
pub mod Index
pub mod Run
pub mod Window
mod Tests
pub mod Plan
pub mod Returns
use mathlib.Core.Option.{Option, none, some}
use korean_stock_trading_sys.Common.{
  ℕ, ◌+◌, Bool, true, false, not, ◌&&◌, ◌||◌, ℤ, pos, pos_part, ltb_ℤ, leb_ℤ, mag, neg_ℤ, List, [],
  ◌∷◌, ◌++◌, String, length, ltb, leb, ◌==◌, if◌then◌else◌,
}
use korean_stock_trading_sys.Common.Dict.{Dict, get, put, remove, contains}
use korean_stock_trading_sys.Common.Exec.{Result, ok, err, Exec}
use korean_stock_trading_sys.Decimal.{
  Decimal, literal, of_int, of_nat, mul, add, sub, div, lt, le, not_positive,
}
use korean_stock_trading_sys.Symbol.{line_match}
use korean_stock_trading_sys.Clock.{Datetime, is_naive, before}
use korean_stock_trading_sys.Signal.{
  EntrySignal, ExitSignal, Signal, entry, exit, ExitReason, stop_loss, take_profit, MinuteBar,
}

-- The `RuntimeError`s of the configuration, then those of the strategy, then `ZeroDivisionError`.
pub data RsiError : Type 0 where
  no_universe bad_universe duplicate_universe bad_period bad_oversold bad_overbought : RsiError
  thresholds_crossed bad_stop_loss bad_max_positions too_many_positions bad_position_pct : RsiError
  no_config bad_symbol naive_ts time_reversed : RsiError
  division_by_zero : RsiError

pub record RsiMrConfig : Type 0 where
  pub universe : List String
  pub rsi_period : ℤ
  pub oversold_threshold : Decimal
  pub overbought_threshold : Decimal
  pub stop_loss_pct : Decimal
  pub max_positions : ℤ
  pub position_pct : Decimal

abbrev pub default_max_positions : ℤ
default_max_positions = pos 10

-- The loop over the universe, with the symbols seen so far.
unfoldable pub check_universe : Dict (Unit {0}) → List String → Result RsiError (Unit {0})
check_universe seen [] = ok tt
check_universe seen (k ∷ ks) =
    let rest = check_universe (put k tt seen) ks in
    if not (line_match k)
    then err bad_universe
    else if contains k seen
    then err duplicate_universe
    else rest

abbrev pub same_ℤ : ℤ → ℤ → Bool
same_ℤ a b = leb_ℤ a b && leb_ℤ b a

unfoldable pub check_numbers : RsiMrConfig → Result RsiError RsiMrConfig
check_numbers c =
    if leb_ℤ c.rsi_period (pos 0)
    then err bad_period
    else if not_positive c.oversold_threshold || le (of_nat 50) c.oversold_threshold
    then err bad_oversold
    else if le c.overbought_threshold (of_nat 50) || le (of_nat 100) c.overbought_threshold
    then err bad_overbought
    else if le c.overbought_threshold c.oversold_threshold
    then err thresholds_crossed
    else if not_positive c.stop_loss_pct || le (of_nat 1) c.stop_loss_pct
    then err bad_stop_loss
    else if ltb_ℤ c.max_positions (pos 1)
    then err bad_max_positions
    else if not (same_ℤ c.max_positions default_max_positions)
        && ltb_ℤ (pos (length c.universe)) c.max_positions
    then err too_many_positions
    else if not_positive c.position_pct || lt (of_nat 1) c.position_pct
    then err bad_position_pct
    else ok c

-- `RSIMRConfig.__post_init__`
unfoldable pub check_config : RsiMrConfig → Result RsiError RsiMrConfig
check_config c = elim c.universe [
  | [] ↦ err no_universe
  | k ∷ ks ↦ elim (check_universe [] (k ∷ ks)) [ err e ↦ err e | ok _ ↦ check_numbers c ]
]

pub record Holding : Type 0 where
  pub entry_price : Decimal
  pub stop_price : Decimal

pub record RsiMrStrategy : Type 0 where
  pub config : RsiMrConfig
  pub closes : Dict (List Decimal)
  pub holdings : Dict Holding
  pub last_bar_time : Dict Datetime
  pub last_exit_date : Dict ℕ

-- A buffer for each symbol; the symbols of a checked universe are different.
unfoldable pub empty_buffers : List String → Dict (List Decimal)
empty_buffers [] = []
empty_buffers (k ∷ ks) = (k, []) ∷ empty_buffers ks

-- `RSIMRStrategy(config)` of a checked configuration
abbrev pub new_strategy : RsiMrConfig → RsiMrStrategy
new_strategy c = record {
  config = c;
  closes = empty_buffers c.universe;
  holdings = [];
  last_bar_time = [];
  last_exit_date = [];
}

-- `append` on a `deque(maxlen=n)`
abbrev pub tail : List Decimal → List Decimal
tail [] = []
tail (x ∷ xs) = xs

unfoldable pub append_bounded : ℕ → Decimal → List Decimal → List Decimal
append_bounded n x xs = let ys = xs ++ (x ∷ []) in if ltb n (length ys) then tail ys else ys

-- `rsi_period + 1`, of a period that the configuration's check has found positive.
abbrev pub buffer_size : RsiMrConfig → ℕ
buffer_size c = pos_part c.rsi_period + 1

-- The sums of the gains and of the losses, in the order of the closes behind a first one.
unfoldable pub moves : Decimal → List Decimal → Decimal → Decimal → Decimal × Decimal
moves prev [] gains losses = (gains, losses)
moves prev (c ∷ cs) gains losses =
    let diff = sub c prev in
    let up = if not_positive diff then gains else add gains diff in
    let down =
      if not_positive diff
      then add losses (record { coeff = neg_ℤ diff.coeff; scale = diff.scale })
      else losses in
    moves c cs up down

-- The index of averaged gains and losses. A zero divisor raises.
unfoldable pub strength : Decimal → Decimal → Result RsiError Decimal
strength avg_gain avg_loss =
    if mag avg_loss.coeff == 0 then ok (of_nat 100) else elim (div avg_gain avg_loss) [
      | none ↦ err division_by_zero
      | some rs ↦ elim (div (of_nat 100) (add (of_nat 1) rs)) [
        | none ↦ err division_by_zero
        | some part ↦ ok (sub (of_nat 100) part)
      ]
    ]

abbrev pub averaged : Decimal → Decimal × Decimal → Result RsiError Decimal
averaged period (gains, losses) = elim (div gains period) [
  | none ↦ err division_by_zero
  | some avg_gain ↦ elim (div losses period) [
    | none ↦ err division_by_zero
    | some avg_loss ↦ strength avg_gain avg_loss
  ]
]

abbrev pub some_ok : Result RsiError Decimal → Result RsiError (Option Decimal)
some_ok (ok x) = ok (some x)
some_ok (err e) = err e

abbrev pub rsi_of : ℤ → List Decimal → Result RsiError (Option Decimal)
rsi_of period [] = ok none
rsi_of period (c ∷ cs) = some_ok (averaged (of_int period) (moves c cs (of_nat 0) (of_nat 0)))

-- `_compute_rsi`: no index while the buffer has fewer than period + 1 closes.
unfoldable pub compute_rsi : RsiMrConfig → List Decimal → Result RsiError (Option Decimal)
compute_rsi c buf = if ltb (length buf) (buffer_size c) then ok none else rsi_of c.rsi_period buf

abbrev pub Read : Type 0
Read = Result RsiError (List Signal) × RsiMrStrategy

abbrev pub appended : MinuteBar → List Decimal → RsiMrStrategy → RsiMrStrategy
appended bar buf s = record s { closes = put bar.symbol buf s.closes }

-- An exit signal and the holding's end.
abbrev pub leaves : MinuteBar → Decimal → ExitReason → RsiMrStrategy → Read
leaves bar price reason s = (
  ok (
      exit (record { symbol = bar.symbol; price = price; ts = bar.bar_time; reason = reason })
      ∷ []),
  record s {
    holdings = remove bar.symbol s.holdings;
    last_exit_date = put bar.symbol bar.bar_time.date s.last_exit_date;
  },
)

-- `close * (1 - stop_loss_pct)`
abbrev pub stop_of : RsiMrConfig → MinuteBar → Decimal
stop_of c bar = mul bar.close (sub (of_nat 1) c.stop_loss_pct)

abbrev pub enters : MinuteBar → RsiMrStrategy → Read
enters bar s = (
  ok (
      entry (record {
        symbol = bar.symbol;
        price = bar.close;
        ts = bar.bar_time;
        stop_price = stop_of s.config bar;
        take_price = of_nat 0;
      })
      ∷ []),
  record s {
    holdings =
        put bar.symbol (record { entry_price = bar.close; stop_price = stop_of s.config bar })
          s.holdings;
  },
)

abbrev pub left_today : MinuteBar → RsiMrStrategy → Bool
left_today bar s = elim (get bar.symbol s.last_exit_date) [
  | none ↦ false
  | some d ↦ d == bar.bar_time.date
]

-- Where nothing is held, with the index.
unfoldable pub seek_entry : MinuteBar → Option Decimal → RsiMrStrategy → Read
seek_entry bar none s = (ok [], s)
seek_entry bar (some rsi) s =
    if le s.config.oversold_threshold rsi
    then (ok [], s)
    else if leb_ℤ s.config.max_positions (pos (length s.holdings))
    then (ok [], s)
    else if left_today bar s
    then (ok [], s)
    else enters bar s

-- Where the symbol is held and the stop is not reached.
unfoldable pub seek_exit : MinuteBar → Option Decimal → RsiMrStrategy → Read
seek_exit bar none s = (ok [], s)
seek_exit bar (some rsi) s =
    if lt s.config.overbought_threshold rsi then leaves bar bar.close take_profit s else (ok [], s)

abbrev pub with_rsi :
    (Option Decimal → RsiMrStrategy → Read)
    → Result RsiError (Option Decimal)
    → RsiMrStrategy
    → Read
with_rsi f (err e) s = (err e, s)
with_rsi f (ok rsi) s = f rsi s

-- Behind the guards, with the symbol's buffer that has the new close.
unfoldable pub read_bar : MinuteBar → List Decimal → RsiMrStrategy → Read
read_bar bar buf s = elim (get bar.symbol s.holdings) [
  | none ↦ with_rsi (seek_entry bar) (compute_rsi s.config buf) (appended bar buf s)
  | some h ↦
      if le bar.low h.stop_price
      then leaves bar h.stop_price stop_loss (appended bar buf s)
      else with_rsi (seek_exit bar) (compute_rsi s.config buf) (appended bar buf s)
]

abbrev pub is_reversed : MinuteBar → RsiMrStrategy → Bool
is_reversed bar s = elim (get bar.symbol s.last_bar_time) [
  | none ↦ false
  | some t ↦ before bar.bar_time t
]

abbrev pub timed : MinuteBar → RsiMrStrategy → RsiMrStrategy
timed bar s = record s { last_bar_time = put bar.symbol bar.bar_time s.last_bar_time }

unfoldable pub on_bar : MinuteBar → Exec RsiMrStrategy RsiError (List Signal)
on_bar bar s =
    if not (line_match bar.symbol)
    then (err bad_symbol, s)
    else if is_naive bar.bar_time
    then (err naive_ts, s)
    else elim (get bar.symbol s.closes) [
      | none ↦ (ok [], s)
      | some buf ↦
          if is_reversed bar s
          then (err time_reversed, s)
          else read_bar bar (append_bounded (buffer_size s.config) bar.close buf) (timed bar s)
    ]

-- Only the guard: the strategy has no forced closing.
unfoldable pub on_time : Datetime → Exec RsiMrStrategy RsiError (List Signal)
on_time now s = if is_naive now then (err naive_ts, s) else (ok [], s)
