-- ===== src/Engine/Loop.antt =====
-- backtest/engine.py, `BacktestEngine.run`: the loop over the bars, with a session for each day.
use korean_stock_trading_sys.Common.{
  ℕ, Bool, false, ℤ, ◌-ℤ◌, Option, none, some, List, [], ◌∷◌, ◌++◌, ◌==◌, if◌then◌else◌,
}
use korean_stock_trading_sys.Common.Exec.{Result, ok, err}
use korean_stock_trading_sys.Clock.{Datetime, before, kst}
use korean_stock_trading_sys.Signal.{Signal, MinuteBar}
use korean_stock_trading_sys.Risk.{
  RejectReason, RiskError, RiskManager, RiskConfig, new_manager, start_session, default_config,
}
use korean_stock_trading_sys.Engine.{
  Strategy, orb_strategy, BacktestConfig, EngineError, risk_error, strategy_error, time_reversed,
  TradeRecord, DailyEquity, Book, Handled, process_signals, close_signals, and_then, check_closed,
}

abbrev pub or_default : Option RiskConfig → RiskConfig
or_default none = default_config
or_default (some c) = c

-- The book at the start of `run`.
abbrev pub opening_book : BacktestConfig → Book
opening_book c = record {
  risk = new_manager (or_default c.risk_config);
  cash = c.starting_capital_krw;
  active = [];
  phantom_longs = [];
  trades = [];
  rejected = [];
  post_slippage = 0;
}

-- `datetime.combine(session_date, force_close_at, tzinfo=_KST)`
abbrev pub closing_time : ℕ → ℕ → Datetime
closing_time date force_close_at = record { date = date; time = force_close_at; offset = kst }

module _ (st : Strategy) where
  -- The local variables of the loop.
  pub record Run : Type 0 where
    pub book : Book
    pub strategy : st.State
    pub last_bar_time : Option Datetime
    pub last_session_date : Option ℕ
    pub daily_equity : List DailyEquity

  abbrev pub Stepped : Type 0
  Stepped = Result (EngineError st.Error) (Unit {0}) × Run

  -- A step of the book within the run, and what follows it.
  abbrev pub booked : Run → Handled st.Error → Stepped
  booked r (o, b) = (o, record r { book = b })

  abbrev pub proceed : (Run → Stepped) → Stepped → Stepped
  proceed f (ok _, r) = f r
  proceed f (err e, r) = (err e, r)

  -- Signals of the strategy, handled by f, or its error.
  abbrev pub signalled :
      (List Signal → Book → Handled st.Error)
      → Run
      → Result st.Error (List Signal) × st.State
      → Stepped
  signalled f r (ok signals, s) = booked (record r { strategy = s }) (f signals r.book)
  signalled f r (err e, s) = (err (strategy_error e), record r { strategy = s })

  -- `_close_session`
  unfoldable pub close_session : BacktestConfig → ℕ → Run → Stepped
  close_session c date r =
      signalled (λ signals b. and_then check_closed (close_signals c signals b)) r
        (st.on_time (closing_time date st.force_close_at) r.strategy)

  -- Behind `start_session`.
  abbrev pub begun_or : ℕ → Run → Result RiskError (Unit {0}) × RiskManager → Stepped
  begun_or date r (err e, risk) =
      (err (risk_error e), record r { book = record r.book { risk = risk } })
  begun_or date r (ok _, risk) =
      (ok tt, record r { book = record r.book { risk = risk }; last_session_date = some date })

  -- `risk_manager.start_session(bar_date, cash)`
  unfoldable pub begin_session : ℕ → Run → Stepped
  begin_session date r = begun_or date r (start_session date r.book.cash r.book.risk)

  abbrev pub equity_noted : ℕ → Run → Run
  equity_noted date r = record r {
    daily_equity =
        r.daily_equity ++ (record { session_date = date; equity_krw = r.book.cash } ∷ []);
  }

  -- By the date of the session before.
  abbrev pub turn_from : BacktestConfig → ℕ → Run → Option ℕ → Stepped
  turn_from c date r none = begin_session date r
  turn_from c date r (some last) =
      if last == date
      then (ok tt, r)
      else proceed (λ r'. begin_session date (equity_noted last r')) (close_session c last r)

  unfoldable pub turn_session : BacktestConfig → ℕ → Run → Stepped
  turn_session c date r = turn_from c date r r.last_session_date

  abbrev pub is_reversed : MinuteBar → Run → Bool
  is_reversed bar r = elim r.last_bar_time [ none ↦ false | some t ↦ before bar.bar_time t ]

  -- The body of the loop.
  unfoldable pub on_each : BacktestConfig → MinuteBar → Run → Stepped
  on_each c bar r =
      if is_reversed bar r
      then (err time_reversed, r)
      else proceed (λ r''. signalled (process_signals c) r'' (st.on_time bar.bar_time r''.strategy))
          (proceed (λ r'. signalled (process_signals c) r' (st.on_bar bar r'.strategy))
            (turn_session c bar.bar_time.date (record r { last_bar_time = some bar.bar_time })))

  unfoldable pub loop : BacktestConfig → List MinuteBar → Run → Stepped
  loop c [] r = (ok tt, r)
  loop c (bar ∷ bars) r = proceed (loop c bars) (on_each c bar r)

  abbrev pub finish_from : BacktestConfig → Run → Option ℕ → Stepped
  finish_from c r none = (ok tt, r)
  finish_from c r (some last) =
      proceed (λ r'. (ok tt, equity_noted last r')) (close_session c last r)

  -- The last session is closed behind the loop.
  unfoldable pub finish : BacktestConfig → Run → Stepped
  finish c r = finish_from c r r.last_session_date

  abbrev pub opening_run : BacktestConfig → Run
  opening_run c = record {
    book = opening_book c;
    strategy = st.initial;
    last_bar_time = none;
    last_session_date = none;
    daily_equity = [];
  }

  unfoldable pub run_with : BacktestConfig → List MinuteBar → Stepped
  run_with c bars = proceed (finish c) (loop c bars (opening_run c))

-- `strategy = cfg.strategy_factory() if ... else ORBStrategy(cfg.strategy_config)`
abbrev pub chosen : BacktestConfig → Strategy
chosen c = elim c.strategy_factory [ some st ↦ st | none ↦ orb_strategy c.strategy_config ]

-- `ending` of `_compute_metrics`
unfoldable pub ending : ℤ → List DailyEquity → ℤ
ending starting [] = starting
ending starting (e ∷ es) = ending e.equity_krw es

-- The result with the one metric that is a whole number.
pub record BacktestResult : Type 0 where
  pub trades : List TradeRecord
  pub daily_equity : List DailyEquity
  pub net_pnl_krw : ℤ
  pub rejected_counts : List (RejectReason × ℕ)
  pub post_slippage_rejections : ℕ

unfoldable pub result_of :
    (st : Strategy) → BacktestConfig → Stepped st → Result (EngineError st.Error) BacktestResult
result_of st c (err e, r) = err e
result_of st c (ok _, r) = ok (record {
  trades = r.book.trades;
  daily_equity = r.daily_equity;
  net_pnl_krw = ending c.starting_capital_krw r.daily_equity -ℤ c.starting_capital_krw;
  rejected_counts = r.book.rejected;
  post_slippage_rejections = r.book.post_slippage;
})

unfoldable pub run :
    (c : BacktestConfig) → List MinuteBar → Result (EngineError (chosen c).Error) BacktestResult
run c bars = result_of (chosen c) c (run_with (chosen c) c bars)
