-- ===== src/Main/Trading.antt =====
-- main.py: a day of callbacks, and the process that starts again in the middle of it.
use korean_stock_trading_sys.Common.{
  ℕ, ◌≡◌, refl, sym, ap, subst, ◌∙◌, true, false, ℤ, Option, List, [], ◌∷◌, String,
}
use korean_stock_trading_sys.Common.Dict.{Dict}
use korean_stock_trading_sys.Common.Paired.{Paired}
use korean_stock_trading_sys.Common.Exec.{ok}
use korean_stock_trading_sys.Clock.{Datetime}
use korean_stock_trading_sys.Engine.{Strategy}
use korean_stock_trading_sys.Executor.{Outside, ExecutorConfig, OpenLot, StepReport, Executor}
use korean_stock_trading_sys.Executor.InSync.{InSync}
use korean_stock_trading_sys.Executor.Restore.{Restorer}
use korean_stock_trading_sys.Executor.Sweep.{step, force_close_all}
use korean_stock_trading_sys.Storage as S
use korean_stock_trading_sys.Storage.{
  DailyPnlSnapshot, Recorder, stamp, key_lt, of_session, empty_pnl,
}
use korean_stock_trading_sys.Storage.Replay.{Event, DayBook, lots_of, sums_of, notes}
use korean_stock_trading_sys.Storage.Day.{no_rows-DayBook}
use korean_stock_trading_sys.Main.{
  Ledger, no_ledger, kept_ledger, Runtime, on_session_start, on_step, on_force_close,
}
use korean_stock_trading_sys.Main.Noted.{Book, AsBooked, fresh}
use korean_stock_trading_sys.Main.Books.{
  Booked, Accepted, events_of, on_step-Booked, on_force_close-Booked,
}
use korean_stock_trading_sys.Main.Restart.{queried, on_session_start-Booked}

abbrev pub SameLot : OpenLot → OpenLot → Type 0
SameLot a b = (a.qty ≡ b.qty) × (a.entry_price ≡ b.entry_price)

both_booked :
    (a b : Dict OpenLot) (d : Book) → Paired AsBooked a d → Paired AsBooked b d → Paired SameLot a b
both_booked [] [] [] h k = tt
both_booked [] (y ∷ b) [] h k = absurd k
both_booked (x ∷ a) b [] h k = absurd h
both_booked [] b (z ∷ d) h k = absurd h
both_booked (x ∷ a) [] (z ∷ d) h k = absurd k
both_booked ((i, x) ∷ a) ((j, y) ∷ b) ((l, z) ∷ d) h k =
    (h.0 ∙ sym k.0, (h.1.0 ∙ sym k.1.0, h.1.1 ∙ sym k.1.1), both_booked a b d h.2 k.2)

abbrev recorder_or : Recorder → Ledger → Recorder
recorder_or r no_ledger = r
recorder_or r (kept_ledger r') = r'

-- Another process opens the tables of a ledger.
abbrev pub reopened : ℕ → Ledger → Ledger
reopened threshold no_ledger = no_ledger
reopened threshold (kept_ledger r) = kept_ledger (S.fresh threshold r.orders r.daily)

module _ (W : Type 0) (st : Strategy) (out : Outside W) (c : ExecutorConfig)
    (orb : Option (Restorer st.State st.Error)) (symbols : List String) (date : ℕ) where
  -- A day of a runtime up to the time k: it begins with a ledger that has no rows of the day, and
  -- goes on by sweeps and forced closings that return. A sweep buys no symbol twice and none that is
  -- open, a forced closing buys none; the ledger that the runtime has accepts each event, and no call
  -- of sqlite3 raises. The book d is what the events leave open.
  pub data Trading : Datetime → Book → Runtime W st.State → Type 0 where
    begin :
        {r : Recorder} (rt : Runtime W st.State) (cli : ℤ) (now : Datetime)
        → rt.ledger ≡ kept_ledger r
        → rt.faults ≡ []
        → r.closed ≡ false
        → of_session date r.orders ≡ []
        → now.date ≡ date
        → (on_session_start W st out c orb symbols cli now rt).started ≡ true
        → Trading now [] (on_session_start W st out c orb symbols cli now rt)
    sweep :
        {k : Datetime} {d : Book} {r : Recorder} {rt : Runtime W st.State} {x : Executor W st.State}
        (fuel : ℕ) (now : Datetime) (report : StepReport)
        → Trading k d rt
        → rt.started ≡ true
        → now.date ≡ date
        → key_lt (stamp now).key (stamp k).key ≡ false
        → step W st out c symbols fuel now rt.executor ≡ (ok report, x)
        → fresh report.entry_events d ≡ true
        → rt.ledger ≡ kept_ledger r
        → Accepted (events_of report) r
        → Trading now (lots_of (events_of report) d) (on_step W st out c orb symbols fuel now rt)
    close :
        {k : Datetime} {d : Book} {r : Recorder} {rt : Runtime W st.State} {x : Executor W st.State}
        (fuel : ℕ) (now : Datetime) (report : StepReport)
        → Trading k d rt
        → now.date ≡ date
        → key_lt (stamp now).key (stamp k).key ≡ false
        → force_close_all W st out c symbols fuel now rt.executor ≡ (ok report, x)
        → report.entry_events ≡ []
        → rt.ledger ≡ kept_ledger r
        → Accepted (events_of report) r
        → Trading now
            (lots_of (events_of report) d)
            (on_force_close W st out c orb symbols fuel now rt)

  -- The runtime of such a day has a ledger whose rows come to its book and to some sums.
  abbrev InBooks : Datetime → Book → Runtime W st.State → Type 0
  InBooks k d rt = (s : DailyPnlSnapshot) × (r : Recorder) × Booked date k d s r rt

  -- The ledger of the books is the one that the runtime has.
  accepted :
      {k : Datetime} {d : Book} {s : DailyPnlSnapshot} {r r' : Recorder} {rt : Runtime W st.State}
      (es : List Event)
      → Booked date k d s r rt
      → rt.ledger ≡ kept_ledger r'
      → Accepted es r'
      → Accepted es r
  accepted {r = r} {r' = r'} es b held a =
      subst (Accepted es) (ap (recorder_or r) (sym held ∙ b.kept)) a

  Trading-InBooks :
      {k : Datetime} {d : Book} {rt : Runtime W st.State} → Trading k d rt → InBooks k d rt
  Trading-InBooks (begin {r} rt cli now held none_ahead is_open no_rows at running) = (
    empty_pnl date,
    queried r,
    on_session_start-Booked W st out c orb symbols date now [] (empty_pnl date) r
        (no_rows-DayBook date now r is_open no_rows) now cli rt at held none_ahead running,
  )
  Trading-InBooks (sweep {k} {d} {r} {rt} {x} fuel now report t running at late e f held a) =
      let (s, r', b) = Trading-InBooks t in
      (
        sums_of (events_of report) s,
        notes (events_of report) r',
        on_step-Booked W st out c orb symbols date k d s r' rt b now at late fuel report x running e
            f (accepted (events_of report) b held a),
      )
  Trading-InBooks (close {k} {d} {r} {rt} {x} fuel now report t at late e none_bought held a) =
      let (s, r', b) = Trading-InBooks t in
      (
        sums_of (events_of report) s,
        notes (events_of report) r',
        on_force_close-Booked W st out c orb symbols date k d s r' rt b now at late fuel report x e
            none_bought (accepted (events_of report) b held a),
      )

  -- The state of an executor that a restart must bring back.
  abbrev pub Resumes : Executor W st.State → Executor W st.State → Type 0
  Resumes x y =
      Paired SameLot x.open_lots y.open_lots
      × (y.risk.entries_today ≡ x.risk.entries_today)
      × (y.risk.daily_realized_pnl_krw ≡ x.risk.daily_realized_pnl_krw)
      × InSync y

  -- A process stops at any point of a day of trading, and another opens the tables of the ledger
  -- that the stopped runtime has, whatever its executor is. If the start of its session on the same
  -- day succeeds, without a fault of sqlite3, the new executor has lots of the same symbols,
  -- quantities and prices in the same order, and its risk manager the same positions, entries and
  -- profit of the day.
  pub restart-Resumes :
      {k : Datetime} {d : Book} {old : Runtime W st.State} (new : Runtime W st.State)
      (threshold : ℕ) (cli : ℤ) (now : Datetime)
      → Trading k d old
      → new.ledger ≡ reopened threshold old.ledger
      → new.faults ≡ []
      → now.date ≡ date
      → (on_session_start W st out c orb symbols cli now new).started ≡ true
      → Resumes old.executor (on_session_start W st out c orb symbols cli now new).executor
  restart-Resumes {k} {d} {old} new threshold cli now t held none_ahead at running =
      let (s, r, before) = Trading-InBooks t in
      let after =
        on_session_start-Booked W st out c orb symbols date k d s
          (S.fresh threshold r.orders r.daily) (fresh-DayBook before.day) now cli new at
          (held ∙ ap (reopened threshold) before.kept) none_ahead running in
      (
        both_booked old.executor.open_lots
            (on_session_start W st out c orb symbols cli now new).executor.open_lots d before.lots
            after.lots,
        after.entries ∙ sym before.entries,
        after.profit_is ∙ sym before.profit_is,
        after.synced,
      )
    where
      fresh-DayBook :
          {s : DailyPnlSnapshot} {r : Recorder}
          → DayBook date k d s r
          → DayBook date k d s (S.fresh threshold r.orders r.daily)
      fresh-DayBook b = record {
        is_open = refl;
        up_to = b.up_to;
        sorted = b.sorted;
        positions = b.positions;
        sums = b.sums;
      }
