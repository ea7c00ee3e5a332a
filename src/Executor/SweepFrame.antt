-- ===== src/Executor/SweepFrame.antt =====
-- execution/executor.py: the sweeps, for a predicate as in Executor/Frame.
use korean_stock_trading_sys.Common.{ℕ, Bool, true, false, ℤ, List, [], ◌∷◌, String}
use korean_stock_trading_sys.Common.Dict.{Dict}
use korean_stock_trading_sys.Common.Exec.{Result, pure, gets, ◌>>=◌}
use korean_stock_trading_sys.Clock.{Datetime}
use korean_stock_trading_sys.Signal.{EntrySignal, ExitSignal, Signal, MinuteBar}
use korean_stock_trading_sys.Risk.{RiskManager}
use korean_stock_trading_sys.Engine.{Strategy}
use korean_stock_trading_sys.Executor.{
  Outside, ExecutorConfig, OrderTicket, EntryEvent, ExitEvent, OpenLot,
}
use korean_stock_trading_sys.Executor.Orders.{Method, enter, leave, once, retried, process_signals}
use korean_stock_trading_sys.Executor.Sweep.{
  reconcile, asked, mark_processed, is_old, signals_of, read_bar, new_bar, unless_old, each_bar,
  each_bars, each_symbol, close_sweep, take_pending, step_body, force_close_body,
  stop_loss_guard_signals,
}
use korean_stock_trading_sys.Executor.Frame.{Safe, then_keeps, kept, process_signals_keeps}

module _ (W : Type 0) (st : Strategy) (out : Outside W) (c : ExecutorConfig) (symbols : List String)
    (P Q : Dict OpenLot → RiskManager → List EntryEvent → List ExitEvent → Type 0)
    (weaken : (lots : Dict OpenLot) (m : RiskManager) (es : List EntryEvent) (xs : List ExitEvent)
      → P lots m es xs
      → Q lots m es xs) where
  abbrev pub Safely : {A : Type 0} → Method W st.State st.Error out c A → Type 0
  Safely m = Safe W st.State st.Error out c P Q weaken m

  module _ (now : Datetime)
      (enters : (s : EntrySignal) (ticket : OrderTicket) (qty : ℤ)
        → Safely (enter W st.State st.Error out c s now ticket qty))
      (leaves : (s : ExitSignal) (lot : OpenLot) (ticket : OrderTicket)
        → Safely (leave W st.State st.Error out c s now lot ticket)) where
    abbrev M : Type 0 → Type 0
    M A = Method W st.State st.Error out c A

    processing :
        (fuel : ℕ) (ss : List Signal)
        → Safely (process_signals W st.State st.Error out c fuel now ss)
    processing fuel ss =
        process_signals_keeps W st.State st.Error out c P Q weaken now enters leaves fuel ss

    asked_keeps :
        (f : st.State → Result st.Error (List Signal) × st.State)
        → Safely (asked W st out c symbols f)
    asked_keeps f = kept W st.State st.Error out c P Q weaken (λ x v. v)

    signals_of_keeps :
        (bar : MinuteBar) (ss : List Signal) → Safely (signals_of W st out c symbols bar ss)
    signals_of_keeps bar [] = asked_keeps (st.on_bar bar)
    signals_of_keeps bar (s ∷ ss) = kept W st.State st.Error out c P Q weaken (λ x v. v)

    reconcile_keeps : Safely (reconcile W st out c symbols)
    unfolding reconcile
    reconcile_keeps =
        then_keeps W st.State st.Error out c P Q weaken _ _
          (retried W st.State st.Error out c out.get_balance) _
          (kept W st.State st.Error out c P Q weaken (λ x v. v))
          λ balance. kept W st.State st.Error out c P Q weaken (λ x v. v)

    read_bar_keeps :
        (fuel : ℕ) (s : String) (bar : MinuteBar) (lots : Dict OpenLot)
        → Safely (read_bar W st out c symbols fuel now s bar lots)
    unfolding read_bar
    read_bar_keeps fuel s bar lots =
        then_keeps W st.State st.Error out c P Q weaken _ _
          (signals_of W st out c symbols bar (stop_loss_guard_signals lots bar)) _
          (signals_of_keeps bar _)
          λ ss.
            then_keeps W st.State st.Error out c P Q weaken _ (ℕ × ℕ)
              (mark_processed W st out c symbols s bar)
              (λ _. process_signals W st.State st.Error out c fuel now ss >>= λ n. pure (1, n))
              (kept W st.State st.Error out c P Q weaken (λ x v. v))
              λ _.
                then_keeps W st.State st.Error out c P Q weaken _ _
                  (process_signals W st.State st.Error out c fuel now ss) _ (processing fuel ss)
                  λ n. kept W st.State st.Error out c P Q weaken (λ x v. v)

    new_bar_keeps :
        (fuel : ℕ) (s : String) (bar : MinuteBar)
        → Safely (new_bar W st out c symbols fuel now s bar)
    unfolding new_bar
    new_bar_keeps fuel s bar = record {
      keep = λ x v. (read_bar_keeps fuel s bar x.open_lots).keep x v;
    }

    each_bar_keeps :
        (fuel : ℕ) (s : String) (bar : MinuteBar)
        → Safely (each_bar W st out c symbols fuel now s bar)
    unfolding each_bar
    each_bar_keeps fuel s bar =
        then_keeps W st.State st.Error out c P Q weaken _ _ (gets (is_old W st out c symbols s bar))
          _ (kept W st.State st.Error out c P Q weaken (λ x v. v)) fresh
      where
        fresh :
            (b : Bool)
            → Safely (unless_old W st out c symbols (new_bar W st out c symbols fuel now s bar) b)
        fresh true = kept W st.State st.Error out c P Q weaken (λ x v. v)
        fresh false = new_bar_keeps fuel s bar

    each_bars_keeps :
        (fuel : ℕ) (s : String) (bars : List MinuteBar)
        → Safely (each_bars W st out c symbols fuel now s bars)
    unfolding each_bars
    each_bars_keeps fuel s [] = kept W st.State st.Error out c P Q weaken (λ x v. v)
    each_bars_keeps fuel s (bar ∷ bars) =
        then_keeps W st.State st.Error out c P Q weaken _ _
          (each_bar W st out c symbols fuel now s bar) _ (each_bar_keeps fuel s bar)
          λ a.
            then_keeps W st.State st.Error out c P Q weaken _ _
              (each_bars W st out c symbols fuel now s bars) _ (each_bars_keeps fuel s bars)
              λ b. kept W st.State st.Error out c P Q weaken (λ x v. v)

    each_symbol_keeps :
        (fuel : ℕ) (ss : List String) → Safely (each_symbol W st out c symbols fuel now ss)
    unfolding each_symbol
    each_symbol_keeps fuel [] = kept W st.State st.Error out c P Q weaken (λ x v. v)
    each_symbol_keeps fuel (s ∷ ss) =
        then_keeps W st.State st.Error out c P Q weaken _ _
          (once W st.State st.Error out c (out.get_minute_bars s)) _
          (kept W st.State st.Error out c P Q weaken (λ x v. v))
          λ bars.
            then_keeps W st.State st.Error out c P Q weaken _ _
              (each_bars W st out c symbols fuel now s bars) _ (each_bars_keeps fuel s bars)
              λ a.
                then_keeps W st.State st.Error out c P Q weaken _ _
                  (each_symbol W st out c symbols fuel now ss) _ (each_symbol_keeps fuel ss)
                  λ b. kept W st.State st.Error out c P Q weaken (λ x v. v)

    -- A step behind its opening.
    pub step_body_keeps : (fuel : ℕ) → Safely (step_body W st out c symbols fuel now)
    unfolding step_body take_pending close_sweep
    step_body_keeps fuel =
        then_keeps W st.State st.Error out c P Q weaken _ _ (take_pending W st out c symbols) _
          (kept W st.State st.Error out c P Q weaken (λ x v. v))
          λ pending.
            then_keeps W st.State st.Error out c P Q weaken _ _
              (process_signals W st.State st.Error out c fuel now pending) _
              (processing fuel pending)
              λ n.
                then_keeps W st.State st.Error out c P Q weaken _ _ (reconcile W st out c symbols) _
                  reconcile_keeps
                  λ report.
                    then_keeps W st.State st.Error out c P Q weaken _ _
                      (each_symbol W st out c symbols fuel now symbols) _
                      (each_symbol_keeps fuel symbols)
                      λ counts.
                        then_keeps W st.State st.Error out c P Q weaken _ _
                          (asked W st out c symbols (st.on_time now)) _
                          (asked_keeps (st.on_time now))
                          λ timed.
                            then_keeps W st.State st.Error out c P Q weaken _ _
                              (process_signals W st.State st.Error out c fuel now timed) _
                              (processing fuel timed)
                              λ m. kept W st.State st.Error out c P Q weaken (λ x v. v)

    pub force_close_body_keeps : (fuel : ℕ) → Safely (force_close_body W st out c symbols fuel now)
    unfolding force_close_body close_sweep
    force_close_body_keeps fuel =
        then_keeps W st.State st.Error out c P Q weaken _ _ (reconcile W st out c symbols) _
          reconcile_keeps
          λ report.
            then_keeps W st.State st.Error out c P Q weaken _ _
              (asked W st out c symbols (st.on_time now)) _ (asked_keeps (st.on_time now))
              λ timed.
                then_keeps W st.State st.Error out c P Q weaken _ _
                  (process_signals W st.State st.Error out c fuel now timed) _
                  (processing fuel timed) λ m. kept W st.State st.Error out c P Q weaken (λ x v. v)
