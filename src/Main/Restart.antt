-- ===== src/Main/Restart.antt =====
-- main.py, `_on_session_start`: a day that begins, or goes on after a restart of the process.
use korean_stock_trading_sys.Common.{
  ℕ, ◌≡◌, refl, sym, ◌∙◌, ap, subst, inl, inr, true, false, Bool-cases, ◌||◌, ℤ, pos, Option, none,
  some, List, [], ◌∷◌, String, map, leb_ℤ, arith,
}
use korean_stock_trading_sys.Common.Dict.{Dict}
use korean_stock_trading_sys.Common.Paired.{Paired}
use korean_stock_trading_sys.Common.Exec.{Result, ok, err, Result-cases, ◌>>◌}
use korean_stock_trading_sys.Clock.{Datetime}
use korean_stock_trading_sys.Engine.{Strategy}
use korean_stock_trading_sys.Risk
use korean_stock_trading_sys.Risk.{RiskError, RiskManager, PositionRecord, collect, restored}
use korean_stock_trading_sys.Executor.{
  Outside, ExecutorConfig, ExecutorError, OpenLot, BalanceSnapshot, Fault, Executor,
}
use korean_stock_trading_sys.Executor.Orders.{once, on_risk}
use korean_stock_trading_sys.Executor.InSync.{InSync, Keeps, kept, bind_keeps}
use korean_stock_trading_sys.Executor.Restore.{
  OpenPosition, Restorer, Touched, position_of, lots_of, restore_longs, then_mark, effective_closed,
  rolled_back, restore_strategy, subscribe_all, replace_lots, resume, commit, restore_session,
  risk_restored, restore_session-InSync,
}
use korean_stock_trading_sys.Executor.Sweep.{start}
use korean_stock_trading_sys.Risk.{start_session}
use korean_stock_trading_sys.Risk.Session.{Yields, begun, start_session-Yields}
use korean_stock_trading_sys.Common.Exec.{modify}
use korean_stock_trading_sys.Storage.{
  DailyPnlSnapshot, Recorder, Op, open_op, pnl_op, on_success, values, of_session,
  load_open_positions, load_daily_pnl, has_state,
}
use korean_stock_trading_sys.Storage.Replay.{DayBook}
use korean_stock_trading_sys.Main.{
  Ledger, kept_ledger, Runtime, as_input, any_row, open_day, opened, with_capital, with_balance,
  on_session_start, load, min_ℤ, warn_null,
}
use korean_stock_trading_sys.Main.Noted.{Book, AsBooked}
use korean_stock_trading_sys.Main.Books.{Booked}
use korean_stock_trading_sys.Main.Opening.{Keyed, Keyed-replay, restored-AsBooked}

risk_counters :
    (date : ℕ) (capital : ℤ) (ps : List PositionRecord) (n : ℕ) (pnl : ℤ) (m : RiskManager)
    → (Risk.restore_session date capital ps (pos n) pnl m).0 ≡ ok tt
    → ((Risk.restore_session date capital ps (pos n) pnl m).1.entries_today ≡ n)
      × ((Risk.restore_session date capital ps (pos n) pnl m).1.daily_realized_pnl_krw ≡ pnl)
unfolding Risk.restore_session
risk_counters date capital ps n pnl m h = elim (Result-cases (collect ps [])) [
  | inl (e, bad) ↦ absurd (ground (arith, bad))
  | inr (b, good) ↦ ground (arith, good)
]

module _ (W S E : Type 0) (out : Outside W) (c : ExecutorConfig) (orb : Option (Restorer S E))
    (date : ℕ) (capital : ℤ) (ps : List OpenPosition) (closed : List String) (n : ℕ) (z : ℤ) where
  abbrev Counts : RiskManager → Type 0
  Counts m = (m.entries_today ≡ n) × (m.daily_realized_pnl_krw ≡ z)

  abbrev Resumed : Executor W S → Type 0
  Resumed x = (x.open_lots ≡ lots_of ps []) × Counts x.risk

  subscribe_all-Resumed :
      (qs : List OpenPosition) → Keeps Resumed (subscribe_all W S E out c orb qs)
  unfolding subscribe_all
  subscribe_all-Resumed [] = kept (λ x v. v)
  subscribe_all-Resumed (q ∷ qs) =
      bind_keeps (Executor W S) (ExecutorError E) (Unit {0}) (Unit {0}) Resumed
        (once W S E out c (out.subscribe q.symbol)) (λ _. subscribe_all W S E out c orb qs)
        (kept (λ x v. v)) (λ _. subscribe_all-Resumed qs)

  commit-Resumed : (x : Executor W S) → Counts x.risk → Resumed (commit W S E out c orb ps x).1
  commit-Resumed x h =
      (bind_keeps (Executor W S) (ExecutorError E) (Unit {0}) (Unit {0}) Resumed
          (subscribe_all W S E out c orb ps) (λ _. resume W S E out c orb)
          (subscribe_all-Resumed ps) (λ _. kept (λ x v. v))).keep
        (replace_lots W S E out c orb ps x).1 (refl, h)

  looped :
      (r : Restorer S E) (t : Touched S) (y : Executor W S)
      → Counts y.risk
      → ((rolled_back W S E out c orb r date capital t >> commit W S E out c orb ps) y).0 ≡ ok tt
      → Resumed ((rolled_back W S E out c orb r date capital t >> commit W S E out c orb ps) y).1
  looped r ((true, touched), s) y h e = commit-Resumed (record y { strategy = s }) h
  looped r ((false, touched), s) y h e = cc

  strategy-Resumed :
      (o : Option (Restorer S E)) (y : Executor W S)
      → Counts y.risk
      → ((restore_strategy W S E out c orb date capital ps closed o >> commit W S E out c orb ps)
          y).0
        ≡ ok tt
      → Resumed
          ((restore_strategy W S E out c orb date capital ps closed o >> commit W S E out c orb ps)
            y).1
  strategy-Resumed none y h e = commit-Resumed y h
  strategy-Resumed (some r) y h e =
      looped r (then_mark r date (effective_closed ps closed) (restore_longs r ps [] y.strategy)) y
        h e

  risk_then :
      (x : Executor W S) (o : Result RiskError (Unit {0}) × RiskManager)
      → (o.0 ≡ ok tt → Counts o.1)
      → ((on_risk W S E out c (λ _. o)
            >> (restore_strategy W S E out c orb date capital ps closed orb
                >> commit W S E out c orb ps))
          x).0
        ≡ ok tt
      → Resumed
          ((on_risk W S E out c (λ _. o)
              >> (restore_strategy W S E out c orb date capital ps closed orb
                  >> commit W S E out c orb ps))
            x).1
        × (o.0 ≡ ok tt)
  risk_then x (err a, m) k e = cc
  risk_then x (ok _, m) k e = (strategy-Resumed orb (record x { risk = m }) (k refl) e, refl)

  -- A restored session that returns has the lots of the positions and the counters that it was given.
  restored_session :
      (x : Executor W S)
      → (restore_session W S E out c orb date capital ps closed (pos n) z x).0 ≡ ok tt
      → Resumed (restore_session W S E out c orb date capital ps closed (pos n) z x).1
        × ((Risk.restore_session date capital (map position_of ps) (pos n) z x.risk).0 ≡ ok tt)
  unfolding restore_session
  restored_session x e =
      risk_then x (Risk.restore_session date capital (map position_of ps) (pos n) z x.risk)
        (risk_counters date capital (map position_of ps) n z x.risk) e

-- The ledger behind its two queries.
abbrev pub queried : Recorder → Recorder
queried r = on_success pnl_op (on_success open_op r)

opens_with :
    (date : ℕ) (k : Datetime) (d : Book) (s : DailyPnlSnapshot) (r : Recorder)
    → DayBook date k d s r
    → load_open_positions date false r ≡ (values d, on_success open_op r)
unfolding load_open_positions
opens_with date k d s r b = ground (arith, b.is_open, b.sorted, b.positions)

sums_with :
    (date : ℕ) (k : Datetime) (d : Book) (s : DailyPnlSnapshot) (r : Recorder)
    → DayBook date k d s r
    → load_daily_pnl date false r ≡ (s, on_success pnl_op r)
unfolding load_daily_pnl
sums_with date k d s r b = ground (arith, b.is_open, b.sums)

-- A success changes nothing of the rows.
on_success-DayBook :
    (op : Op) (date : ℕ) (k : Datetime) (d : Book) (s : DailyPnlSnapshot) (r : Recorder)
    → DayBook date k d s r
    → DayBook date k d s (on_success op r)
unfolding on_success
on_success-DayBook op date k d s r b = record {
  is_open = b.is_open;
  up_to = b.up_to;
  sorted = b.sorted;
  positions = b.positions;
  sums = b.sums;
}

DayBook-Keyed :
    (date : ℕ) (k : Datetime) (d : Book) (s : DailyPnlSnapshot) (r : Recorder)
    → DayBook date k d s r
    → Keyed d
DayBook-Keyed date k d s r b =
    subst Keyed (ap (λ (o : Book × ℕ). o.0) b.positions)
      (Keyed-replay (of_session date r.orders) [] tt)

no_row : (d : Book) → any_row (values d) ≡ false → d ≡ []
no_row [] h = refl
no_row (x ∷ d) h = cc

no_state :
    (s : DailyPnlSnapshot)
    → has_state s ≡ false
    → (s.entries_today ≡ 0) × (s.realized_pnl_krw ≡ pos 0)
no_state s h = ground arith

module _ (W : Type 0) (st : Strategy) (out : Outside W) (c : ExecutorConfig)
    (orb : Option (Restorer st.State st.Error)) (symbols : List String) (date : ℕ) (k : Datetime)
    (d : Book) (s : DailyPnlSnapshot) where
  -- The executor stands for the book and the sums.
  abbrev Stands : Executor W st.State → Type 0
  Stands x =
      Paired AsBooked x.open_lots d
      × InSync x
      × (x.risk.entries_today ≡ s.entries_today)
      × (x.risk.daily_realized_pnl_krw ≡ s.realized_pnl_krw)

  started :
      (capital : ℤ) (x : Executor W st.State) (o : Result RiskError (Unit {0}) × RiskManager)
      (Q : Type 0) (f : Executor W st.State → Executor W st.State)
      → ((y : Executor W st.State) → (f y).open_lots ≡ [])
      → ((y : Executor W st.State) → (f y).risk ≡ y.risk)
      → Yields x.risk (begun date capital x.risk) Q o
      → d ≡ []
      → (s.entries_today ≡ 0) × (s.realized_pnl_krw ≡ pos 0)
      → ((on_risk W st.State st.Error out c (λ _. o) >> modify f) x).0 ≡ ok tt
      → Stands ((on_risk W st.State st.Error out c (λ _. o) >> modify f) x).1
  started capital x (err e, m) Q f lots risk y none_open zero h = cc
  started capital x (ok _, m) Q f lots risk y none_open zero h =
      let begun_now = risk (record x { risk = m }) ∙ y.1 in
      (
        rw (lots (record x { risk = m }), none_open) tt,
        rw (lots (record x { risk = m }), begun_now) tt,
        ap (λ (m : RiskManager). m.entries_today) begun_now ∙ sym zero.0,
        ap (λ (m : RiskManager). m.daily_realized_pnl_krw) begun_now ∙ sym zero.1,
      )

  open_day-Stands :
      (capital : ℤ) (x : Executor W st.State)
      → Keyed d
      → (open_day W st out c orb symbols date capital (values d) s x).0 ≡ ok tt
      → Stands (open_day W st out c orb symbols date capital (values d) s x).1
  unfolding open_day start
  open_day-Stands capital x keyed = elim (Bool-cases (any_row (values d) || has_state s)) [
    | inl known ↦ rw known λ h.
        let ps = map as_input (values d) in
        let back =
          restored_session W st.State st.Error out c orb date capital ps s.closed_symbols
            s.entries_today s.realized_pnl_krw x h in
        (
          subst (λ (l : Dict OpenLot). Paired AsBooked l d) (sym back.0.0)
              (restored-AsBooked d _ keyed (
                risk_restored date capital (map position_of ps) (pos s.entries_today)
                  s.realized_pnl_krw x.risk back.1)),
          restore_session-InSync W st.State st.Error out c orb date capital ps s.closed_symbols
              (pos s.entries_today) s.realized_pnl_krw x h,
          back.0.1.0,
          back.0.1.1,
        )
    | inr unknown ↦ rw unknown (
        started capital x (start_session date capital x.risk) _ _ (λ y. refl) (λ y. refl)
          (start_session-Yields date capital x.risk) (no_row d (ground (arith, unknown)))
          (no_state s (ground (arith, unknown))))
  ]

  module _ (r : Recorder) (b : DayBook date k d s r) where
    abbrev behind : Runtime W st.State → Runtime W st.State
    behind rt = record rt { ledger = kept_ledger (queried r); faults = [] }

    load-eq :
        (rt : Runtime W st.State)
        → rt.faults ≡ []
        → load date (kept_ledger r) rt ≡ ((values d, s), behind rt)
    load-eq rt none_ahead = ground (
      arith,
      none_ahead,
      opens_with date k d s r b,
      sums_with date k d s (on_success open_op r) (on_success-DayBook open_op date k d s r b),
    )

    opened-Booked :
        (o : Result (ExecutorError st.Error) (Unit {0}) × Executor W st.State)
        (rt : Runtime W st.State)
        → (o.0 ≡ ok tt → Stands o.1)
        → (opened W st out c orb symbols o (behind rt)).started ≡ true
        → Booked date k d s (queried r) (opened W st out c orb symbols o (behind rt))
    opened-Booked (err e, x) rt h running = cc
    opened-Booked (ok _, x) rt h running =
        let stands = h refl in
        record {
          kept = refl;
          sound = refl;
          day =
              on_success-DayBook pnl_op date k d s (on_success open_op r)
                (on_success-DayBook open_op date k d s r b);
          lots = stands.0;
          synced = stands.1;
          entries = stands.2;
          profit_is = stands.3;
        }

    -- What is shown of a runtime behind the start of a session, if that has succeeded.
    abbrev StartedBooked : Runtime W st.State → Type 0
    StartedBooked rt = rt.started ≡ true → Booked date k d s (queried r) rt

    with_capital-Booked :
        (now : Datetime) (capital : ℤ) (rt : Runtime W st.State)
        → now.date ≡ date
        → rt.ledger ≡ kept_ledger r
        → rt.faults ≡ []
        → StartedBooked (with_capital W st out c orb symbols now capital rt)
    unfolding with_capital
    with_capital-Booked now capital rt at held none_ahead =
        let loaded : load now.date rt.ledger rt ≡ ((values d, s), behind rt) =
          ap (λ (n : ℕ). load n rt.ledger rt) at
          ∙ ap (λ (l : Ledger). load date l rt) held
          ∙ load-eq rt none_ahead in
        rw (loaded, at)
          (opened-Booked (open_day W st out c orb symbols date capital (values d) s rt.executor) rt
            (open_day-Stands capital rt.executor (DayBook-Keyed date k d s r b)))

    with_balance-Booked :
        (now : Datetime) (cli : ℤ) (o : Result Fault BalanceSnapshot × W) (rt : Runtime W st.State)
        → now.date ≡ date
        → rt.ledger ≡ kept_ledger r
        → rt.faults ≡ []
        → StartedBooked (with_balance W st out c orb symbols now cli o rt)
    with_balance-Booked now cli (err e, w) rt at held none_ahead = λ running. cc
    with_balance-Booked now cli (ok a, w) rt at held none_ahead =
        elim (Bool-cases (leb_ℤ (min_ℤ cli a.withdrawable) (pos 0))) [
          | inl poor ↦ rw poor λ running. cc
          | inr funded ↦ rw funded (
              with_capital-Booked now (min_ℤ cli a.withdrawable)
                (record rt { executor = record rt.executor { world = w } }) at held none_ahead)
        ]

    -- However the executor stood before.
    pub on_session_start-Booked :
        (now : Datetime) (cli : ℤ) (rt : Runtime W st.State)
        → now.date ≡ date
        → rt.ledger ≡ kept_ledger r
        → rt.faults ≡ []
        → StartedBooked (on_session_start W st out c orb symbols cli now rt)
    unfolding on_session_start
    on_session_start-Booked now cli rt at held none_ahead =
        subst
          (λ (y : Runtime W st.State).
            StartedBooked
              (with_balance W st out c orb symbols now cli (out.get_balance y.executor.world) y))
          (ap (λ (l : Ledger). warn_null l rt) (sym held))
          (with_balance-Booked now cli (out.get_balance rt.executor.world) rt at held none_ahead)
