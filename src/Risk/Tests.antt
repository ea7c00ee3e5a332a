-- ===== src/Risk/Tests.antt =====
-- Runs of the risk manager, and each theorem at an input that meets its hypotheses.
use korean_stock_trading_sys.Common.{
  ◌*◌, ◌≤◌, ◌<◌, ◌≡◌, refl, ◌^◌, true, false, ℤ, pos, negsuc, mag, ◌≤ℤ◌, ◌+ℤ◌, none, some, [], ◌∷◌,
  arith,
}
use korean_stock_trading_sys.Common.Dict.{get, put}
use korean_stock_trading_sys.Common.Exec.{ok}
use korean_stock_trading_sys.Decimal.{of_int, mul, lt, to_int, div}
use korean_stock_trading_sys.Symbol.{full_match}
use korean_stock_trading_sys.Clock.{Datetime}
use korean_stock_trading_sys.Signal.{EntrySignal}
use korean_stock_trading_sys.Risk.{
  halted_daily_loss, insufficient_cash, RiskConfig, check_config, RiskDecision, PositionRecord,
  RiskManager, new_manager, start_session, halt_threshold_krw, is_halted, validate_signal, reject,
  target_notional, judge_notional, limit_reason, judge, evaluate_entry, record_entry, record_exit,
  not_held,
}
use korean_stock_trading_sys.Decimal.{literal, fix, shift, half_even}
use korean_stock_trading_sys.Decimal.Quotient.{floor_div}
use korean_stock_trading_sys.Clock.{kst}
use korean_stock_trading_sys.Risk.Gate.{
  Admits, evaluate_entry-Admits, Refuses, evaluate_entry-Refuses,
}
use korean_stock_trading_sys.Risk.Sizing.{IsConfig, evaluate_entry-size, check_config-IsConfig}
use korean_stock_trading_sys.Risk.Session.{fill, close, call, IsValid, call_atomic, call-IsValid}
use korean_stock_trading_sys.Risk.Protocol.{
  open_day, enter, Reach, here, next, Within, Reach-Within,
}
use korean_stock_trading_sys.Risk.Breaker.{breaker_moves}

abbrev config : RiskConfig
config = record {
  position_pct = literal 20 2;
  max_positions = pos 3;
  daily_loss_limit_pct = literal 2 2;
  daily_max_entries = pos 10;
  min_notional_krw = pos 100_000;
}

config-IsConfig : IsConfig config
config-IsConfig = ground arith

abbrev at_nine : Datetime
at_nine = record { date = 739_000; time = 32_400_000_000; offset = kst }

abbrev signal : EntrySignal
signal = record {
  symbol = "005930";
  price = literal 70_000 0;
  ts = at_nine;
  stop_price = literal 68_950 0;
  take_price = literal 72_100 0;
}

-- A session with five million won.
abbrev morning : RiskManager
morning = record {
  config = config;
  session_date = some 739_000;
  starting_capital_krw = some (pos 5_000_000);
  daily_realized_pnl_krw = pos 0;
  entries_today = 0;
  active_positions = [];
  halt_logged = false;
}

start_runs : start_session 739_000 (pos 5_000_000) (new_manager config) ≡ (ok tt, morning)
unfolding start_session new_manager
start_runs = refl

abbrev approval : RiskDecision
approval = record {
  approved = true;
  qty = pos 14;
  target_notional_krw = pos 1_000_000;
  reason = none;
}

approves : evaluate_entry morning signal (pos 2_000_000) ≡ ok approval
unfolding evaluate_entry validate_signal full_match judge limit_reason is_halted halt_threshold_krw
    judge_notional get mul fix div shift half_even to_int lt
approves = refl

too_little_cash :
    evaluate_entry morning signal (pos 500_000) ≡ ok (reject insufficient_cash (pos 1_000_000))
unfolding evaluate_entry validate_signal full_match judge limit_reason is_halted halt_threshold_krw
    judge_notional get mul fix div shift half_even to_int lt
too_little_cash = refl

evaluate_entry-Admits_example : Admits morning signal (pos 2_000_000) approval
evaluate_entry-Admits_example =
    evaluate_entry-Admits morning signal (pos 2_000_000) approval approves refl

evaluate_entry-size_example :
    let n = floor_div (of_int (target_notional config (pos 5_000_000))) (literal 70_000 0) in
    (◌≡◌ {A = ℤ} (pos 14) (pos n))
    × (1 ≤ n)
    × (n * 70_000 ≤ mag (target_notional config (pos 5_000_000)) * 1)
evaluate_entry-size_example =
    evaluate_entry-size morning signal (pos 2_000_000) (pos 5_000_000) approval refl config-IsConfig
      (omega arith) target_small approves refl
  where
    target_small : mag (target_notional config (pos 5_000_000)) * 10 ^ 0 < 2 * 10 ^ 27
    target_small = unfold to_int mul fix in omega arith

morning-IsValid : IsValid morning
morning-IsValid = ground arith

call-IsValid_example : IsValid (call (fill "005930" (literal 70_070 0) (pos 14) at_nine) morning).1
call-IsValid_example =
    call-IsValid (fill "005930" (literal 70_070 0) (pos 14) at_nine) morning morning-IsValid

call_atomic_example : (call (close "005930" (pos 100)) morning).1 ≡ morning
unfolding call record_exit full_match get
call_atomic_example = call_atomic (close "005930" (pos 100)) morning not_held refl

abbrev held : PositionRecord
held = record {
  symbol = "005930";
  entry_price = literal 70_070 0;
  qty = pos 14;
  entry_ts = at_nine;
}

abbrev after_fill : RiskManager
after_fill = record morning { active_positions = ("005930", held) ∷ []; entries_today = 1 }

fill_runs : record_entry "005930" (literal 70_070 0) (pos 14) at_nine morning ≡ (ok tt, after_fill)
unfolding record_entry full_match get put
fill_runs = refl

abbrev two_steps : Reach (new_manager config) after_fill
two_steps = next (next here (open_day 739_000 (pos 5_000_000) start_runs)) (
    enter signal (pos 2_000_000) approval (literal 70_070 0) (pos 14) at_nine approves refl
      fill_runs)

Reach-Within_example : Within config after_fill
Reach-Within_example = Reach-Within config after_fill config-IsConfig two_steps

-- The threshold is -100,000; the day stands at -120,000 with one position open.
abbrev halted_day : RiskManager
halted_day = record after_fill { daily_realized_pnl_krw = negsuc 119_999; halt_logged = true }

abbrev refusal : RiskDecision
refusal = record {
  approved = false;
  qty = pos 0;
  target_notional_krw = pos 1_000_000;
  reason = some halted_daily_loss;
}

refuses : evaluate_entry halted_day signal (pos 2_000_000) ≡ ok refusal
unfolding evaluate_entry validate_signal full_match judge limit_reason is_halted halt_threshold_krw
    mul fix to_int
refuses = refl

evaluate_entry-Refuses_example : Refuses halted_day signal (pos 2_000_000) refusal
evaluate_entry-Refuses_example =
    evaluate_entry-Refuses halted_day signal (pos 2_000_000) refusal refuses

breaker_moves_example :
    (pos 50_000 ≤ℤ pos 0 → is_halted (record_exit "005930" (pos 50_000) halted_day).1 ≡ true)
    × (halt_threshold_krw halted_day +ℤ pos 1 ≤ℤ negsuc 119_999 +ℤ pos 50_000
        → is_halted (record_exit "005930" (pos 50_000) halted_day).1 ≡ false)
unfolding is_halted halt_threshold_krw mul fix to_int record_exit full_match get
breaker_moves_example = breaker_moves "005930" (pos 50_000) halted_day refl refl

check_config-IsConfig_example :
    ((d : RiskConfig) → check_config config ≡ ok d → IsConfig config × (d ≡ config))
    × (IsConfig config → check_config config ≡ ok config)
check_config-IsConfig_example = check_config-IsConfig config
