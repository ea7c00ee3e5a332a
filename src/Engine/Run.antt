-- ===== src/Engine/Run.antt =====
-- backtest/engine.py, `run`: the books of a whole simulation, for any strategy and any bars.
use mathlib.Core.Option.{some-injective}
use korean_stock_trading_sys.Common.{
  ℕ, ◌≡◌, refl, inl, inr, sym, ◌∙◌, subst, Bool-cases, ℤ, pos, ◌+ℤ◌, int_laws, Same, eq-Same,
  eq_of_parts, Option, none, some, List, [], ◌∷◌, ◌++◌, ◌==◌,
}
use korean_stock_trading_sys.Common.Dict.{Dict}
use korean_stock_trading_sys.Common.Exec.{Result, ok, err, ok-injective}
use korean_stock_trading_sys.Signal.{Signal, MinuteBar}
use korean_stock_trading_sys.Risk.{RiskError, RiskManager, new_manager, start_session}
use korean_stock_trading_sys.Risk.Session.{Yields, begun, start_session-Yields}
use korean_stock_trading_sys.Engine.{
  Strategy, BacktestConfig, TradeRecord, DailyEquity, Book, Handled, process_signals, close_signals,
  and_then, closed_or, check_closed, ActiveLot,
}
use korean_stock_trading_sys.Common.Totals.{total}
use korean_stock_trading_sys.Engine.Books.{Synced, invested, realised}
use korean_stock_trading_sys.Engine.Ledger.{Sound, process_signals-Sound, close_signals-Sound}
use korean_stock_trading_sys.Engine.Loop.{
  Run, Stepped, booked, proceed, signalled, close_session, begin_session, begun_or, equity_noted,
  turn_from, finish_from, turn_session, is_reversed, on_each, loop, finish, opening_book,
  opening_run, run_with, ending, chosen, BacktestResult, result_of, run, closing_time,
}

-- No lot and no phantom long is left.
abbrev pub IsClosed : Book → Type 0
IsClosed b = (b.active ≡ []) × (b.phantom_longs ≡ [])

ending-append :
    (x : ℤ) (es : List DailyEquity) (e : DailyEquity) → ending x (es ++ (e ∷ [])) ≡ e.equity_krw
unfolding ending
ending-append x [] e = refl
ending-append x (d ∷ es) e = ending-append d.equity_krw es e

-- Before the first session nothing has been traded.
pub record IsFresh (b : Book) (es : List DailyEquity) : Type 0 where
  pub closed : IsClosed b
  pub no_trades : b.trades ≡ []
  pub no_equity : es ≡ []

abbrev FreshIf : Option ℕ → Book → List DailyEquity → Type 0
FreshIf none b es = IsFresh b es
FreshIf (some _) b es = Unit

module _ (st : Strategy) (start : ℤ) where
  abbrev Kept : Run st → Type 0
  Kept r = Sound start r.book × FreshIf r.last_session_date r.book r.daily_equity

  abbrev Open : Run st → Type 0
  Open r = Sound start r.book × ((d : ℕ) × (r.last_session_date ≡ some d))

  abbrev Closed : Run st → Type 0
  Closed r = Sound start r.book × IsClosed r.book

  -- A step that returns ends in Q; one that raises leaves the books in order too.
  abbrev Out : (Run st → Type 0) → Stepped st → Type 0
  Out Q (ok _, r) = Q r
  Out Q (err _, r) = Sound start r.book

  proceed-Out :
      (P Q : Run st → Type 0) (f : Run st → Stepped st) (s : Stepped st)
      → ((r : Run st) → P r → Out Q (f r))
      → Out P s
      → Out Q (proceed st f s)
  proceed-Out P Q f (ok _, r) k h = k r h
  proceed-Out P Q f (err e, r) k h = h

  Open-Kept : (r : Run st) → Open r → Kept r
  Open-Kept r h = (h.0, subst (λ o. FreshIf o r.book r.daily_equity) (sym h.1.1) tt)

  check_closed-Closed :
      (r : Run st) (b : Book) → Sound start b → Out Closed (booked st r (check_closed b))
  unfolding check_closed
  check_closed-Closed r b v = decided b.active b.phantom_longs refl refl
    where
      decided :
          (a : Dict ActiveLot) (p : Dict (Unit {0}))
          → b.active ≡ a
          → b.phantom_longs ≡ p
          → Out Closed (booked st r (closed_or b a p))
      decided (_ ∷ _) p e e' = v
      decided [] (_ ∷ _) e e' = v
      decided [] [] e e' = (v, (e, e'))

  checked-Closed :
      (r : Run st) (h : Handled st.Error)
      → Sound start h.1
      → Out Closed (booked st r (and_then check_closed h))
  checked-Closed r (ok _, b) v = check_closed-Closed r b v
  checked-Closed r (err e, b) v = v

  booked-Open :
      (r : Run st) (h : Handled st.Error) → Open r → Sound start h.1 → Out Open (booked st r h)
  booked-Open r (ok _, b) o v = (v, o.1)
  booked-Open r (err e, b) o v = v

  signalled-Out :
      (Q : Run st → Type 0) (f : List Signal → Book → Handled st.Error) (r : Run st)
      (o : Result st.Error (List Signal) × st.State)
      → Sound start r.book
      → ((ss : List Signal) → Out Q (booked st (record r { strategy = o.1 }) (f ss r.book)))
      → Out Q (signalled st f r o)
  signalled-Out Q f r (ok ss, s) v k = k ss
  signalled-Out Q f r (err e, s) v k = v

  close_session-Closed :
      (c : BacktestConfig) (date : ℕ) (r : Run st)
      → Sound start r.book
      → Out Closed (close_session st c date r)
  unfolding close_session
  close_session-Closed c date r v =
      let o = st.on_time (closing_time date st.force_close_at) r.strategy in
      signalled-Out Closed (λ ss b. and_then check_closed (close_signals c ss b)) r o v
        λ ss.
          checked-Closed (record r { strategy = o.1 }) (close_signals c ss r.book)
            (close_signals-Sound start st.Error c ss r.book v)

  begun_or-Open :
      (date : ℕ) (r : Run st) (o : Result RiskError (Unit {0}) × RiskManager) (P : Type 0)
      → r.book.active ≡ []
      → Yields r.book.risk (begun date r.book.cash r.book.risk) P o
      → Sound start r.book
      → Out Open (begun_or st date r o)
  begun_or-Open date r (err e, risk) P none_open y v =
      subst (λ m. Sound start (record r.book { risk = m })) (sym y) v
  begun_or-Open date r (ok _, risk) P none_open y v = (
    subst (λ m. Sound start (record r.book { risk = m })) (sym y.1)
        (record {
          balanced = v.balanced;
          synced = subst (λ a. Synced a []) (sym none_open) tt;
          day = λ base h.
              subst (λ x. Same (r.book.cash +ℤ invested r.book.active) (x +ℤ pos 0))
                (some-injective r.book.cash base h) (omega (int_laws, nothing));
        }),
    (date, refl),
  )
    where
      nothing : Same (invested r.book.active) (pos 0)
      nothing = subst (λ a. Same (invested a) (pos 0)) (sym none_open) (unfold total in refl)

  begin_session-Open : (date : ℕ) (r : Run st) → Closed r → Out Open (begin_session st date r)
  unfolding begin_session
  begin_session-Open date r h =
      begun_or-Open date r (start_session date r.book.cash r.book.risk) _ h.1.0
        (start_session-Yields date r.book.cash r.book.risk) h.0

  turn_session-Open :
      (c : BacktestConfig) (date : ℕ) (r : Run st) → Kept r → Out Open (turn_session st c date r)
  unfolding turn_session
  turn_session-Open c date r h = from r.last_session_date refl h.1
    where
      from :
          (o : Option ℕ)
          → r.last_session_date ≡ o
          → FreshIf o r.book r.daily_equity
          → Out Open (turn_from st c date r o)
      from none e fresh = begin_session-Open date r (h.0, fresh.closed)
      from (some last) e _ = elim (Bool-cases (last == date)) [
        | inl same ↦ rw same (h.0, (last, e))
        | inr other ↦ rw other (
            proceed-Out Closed Open (λ r'. begin_session st date (equity_noted st last r'))
              (close_session st c last r)
              (λ r' k. begin_session-Open date (equity_noted st last r') k)
              (close_session-Closed c last r h.0))
      ]

  process-Open :
      (c : BacktestConfig) (r : Run st) (o : Result st.Error (List Signal) × st.State)
      → Open r
      → Out Open (signalled st (process_signals c) r o)
  process-Open c r o h = signalled-Out Open (process_signals c) r o h.0 λ ss.
      booked-Open (record r { strategy = o.1 }) (process_signals c ss r.book) h
        (process_signals-Sound start st.Error c ss r.book h.0)

  on_each-Open :
      (c : BacktestConfig) (bar : MinuteBar) (r : Run st) → Kept r → Out Open (on_each st c bar r)
  unfolding on_each
  on_each-Open c bar r h = elim (Bool-cases (is_reversed st bar r)) [
    | inl late ↦ rw (late, on_each) h.0
    | inr on ↦
        rw (on, on_each)
          (proceed-Out Open Open _ _ (λ r'. process-Open c r' (st.on_time bar.bar_time r'.strategy))
            (proceed-Out Open Open _ _ (λ r'. process-Open c r' (st.on_bar bar r'.strategy))
              (turn_session-Open c bar.bar_time.date
                (record r { last_bar_time = some bar.bar_time }) h)))
  ]

  loop-Kept :
      (c : BacktestConfig) (bars : List MinuteBar) (r : Run st)
      → Kept r
      → Out Kept (loop st c bars r)
  unfolding loop
  loop-Kept c [] r h = h
  loop-Kept c (bar ∷ bars) r h =
      proceed-Out Open Kept (loop st c bars) (on_each st c bar r)
        (λ r' o. loop-Kept c bars r' (Open-Kept r' o)) (on_each-Open c bar r h)

  -- Behind the last session: nothing is open, and the last equity is the capital with the trades.
  abbrev Settled : Run st → Type 0
  Settled r =
      Sound start r.book
      × IsClosed r.book
      × (ending start r.daily_equity ≡ start +ℤ realised r.book.trades)

  closed_cash : (b : Book) → Sound start b → IsClosed b → b.cash ≡ start +ℤ realised b.trades
  closed_cash b v k =
      eq_of_parts b.cash (start +ℤ realised b.trades) (omega (int_laws, v.balanced, nothing))
    where
      nothing : Same (invested b.active) (pos 0)
      nothing = subst (λ a. Same (invested a) (pos 0)) (sym k.0) (unfold total in refl)

  nothing_yet :
      (es : List DailyEquity) (ts : List TradeRecord)
      → es ≡ []
      → ts ≡ []
      → ending start es ≡ start +ℤ realised ts
  unfolding ending realised
  nothing_yet [] [] h k = eq_of_parts start (start +ℤ pos 0) (omega int_laws)
  nothing_yet [] (t ∷ ts) h k = cc
  nothing_yet (e ∷ es) ts h k = cc

  finish-Settled : (c : BacktestConfig) (r : Run st) → Kept r → Out Settled (finish st c r)
  unfolding finish
  finish-Settled c r h = from r.last_session_date h.1
    where
      from : (o : Option ℕ) → FreshIf o r.book r.daily_equity → Out Settled (finish_from st c r o)
      from none fresh = (
        h.0,
        fresh.closed,
        nothing_yet r.daily_equity r.book.trades fresh.no_equity fresh.no_trades,
      )
      from (some last) _ =
          proceed-Out Closed Settled _ (close_session st c last r)
            (λ r' k.
              (k.0, k.1, ending-append start r'.daily_equity _ ∙ closed_cash r'.book k.0 k.1))
            (close_session-Closed c last r h.0)

-- The book at the start of a run is in order.
opening-Sound : (c : BacktestConfig) → Sound c.starting_capital_krw (opening_book c)
unfolding new_manager total realised
opening-Sound c = record { balanced = refl; synced = tt; day = λ base h. cc }

-- However a run ends, for any strategy and any bars, also by a raise: cash and the cost of the open
-- lots are the capital and the result of the trades, and the lots are the risk manager's positions.
-- A run that returns has nothing open, and its last equity is the capital with the trades.
pub run_with_settles :
    (st : Strategy) (c : BacktestConfig) (bars : List MinuteBar)
    → Sound c.starting_capital_krw (run_with st c bars).1.book
      × ((run_with st c bars).0 ≡ ok tt
          → IsClosed (run_with st c bars).1.book
            × (ending c.starting_capital_krw (run_with st c bars).1.daily_equity
                ≡ c.starting_capital_krw +ℤ realised (run_with st c bars).1.book.trades))
unfolding run_with
run_with_settles st c bars = read (run_with st c bars) (
    proceed-Out st start (Kept st start) (Settled st start) (finish st c)
      (loop st c bars (opening_run st c)) (finish-Settled st start c)
      (loop-Kept st start c bars (opening_run st c)
        (opening-Sound c, record { closed = (refl, refl); no_trades = refl; no_equity = refl })))
  where
    start : ℤ
    start = c.starting_capital_krw

    read :
        (s : Stepped st)
        → Out st start (Settled st start) s
        → Sound start s.1.book
          × (s.0 ≡ ok tt
              → IsClosed s.1.book
                × (ending start s.1.daily_equity ≡ start +ℤ realised s.1.book.trades))
    read (ok _, r) h = (h.0, λ e. (h.1, h.2))
    read (err e, r) h = (h, λ e'. cc)

-- The reported net profit of a run that returns is the sum of the net profits of its trades.
pub net_pnl-run :
    (c : BacktestConfig) (bars : List MinuteBar) (res : BacktestResult)
    → run c bars ≡ ok res
    → res.net_pnl_krw ≡ realised res.trades
unfolding run result_of
net_pnl-run c bars res h =
    told (run_with (chosen c) c bars) (run_with_settles (chosen c) c bars).1 h
  where
    told :
        (s : Stepped (chosen c))
        → (s.0 ≡ ok tt
            → IsClosed s.1.book
              × (ending c.starting_capital_krw s.1.daily_equity
                  ≡ c.starting_capital_krw +ℤ realised s.1.book.trades))
        → result_of (chosen c) c s ≡ ok res
        → res.net_pnl_krw ≡ realised res.trades
    told (err e, r) k h = cc
    told (ok _, r) k h =
        let e = ok-injective _ res h in
        subst (λ x. x.net_pnl_krw ≡ realised x.trades) e
          (eq_of_parts _ _ (omega (int_laws, eq-Same _ _ (k refl).1)))
