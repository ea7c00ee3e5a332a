-- ===== src/Main/Books.antt =====
-- main.py: the ledger and the executor after each callback of a day.
use korean_stock_trading_sys.Common.{
  ℕ, ◌≡◌, refl, sym, ◌∙◌, ap, subst, subst₂, inl, inr, Bool, true, false, Bool-cases, ℤ, ◌+ℤ◌,
  Option, List, [], ◌∷◌, ◌++◌, String, if◌then◌else◌, map, length, All, int_laws, arith,
}
use korean_stock_trading_sys.Common.Paired.{Paired}
use korean_stock_trading_sys.Common.Exec.{Result, ok, err, Exec, continue, ◌>>=◌}
use korean_stock_trading_sys.Clock.{Datetime, is_naive}
use korean_stock_trading_sys.Engine.{Strategy}
use korean_stock_trading_sys.Executor.{
  Outside, ExecutorConfig, ExecutorError, EntryEvent, ExitEvent, StepReport, Executor,
}
use korean_stock_trading_sys.Executor.InSync.{InSync}
use korean_stock_trading_sys.Executor.Orders.{Method, process_signals}
use korean_stock_trading_sys.Executor.Sweep.{
  open_sweep, step_body, step, force_close_body, force_close_all, close_sweep, no_day, is_cons,
  take_pending, reconcile, each_symbol, asked,
}
use korean_stock_trading_sys.Executor.Frame.{Ends}
use korean_stock_trading_sys.Executor.Restore.{Restorer}
use korean_stock_trading_sys.Executor.SweepFrame.{step_body_keeps, force_close_body_keeps}
use korean_stock_trading_sys.Storage.{DailyPnlSnapshot, Recorder, accepts, key_lt, stamp}
use korean_stock_trading_sys.Storage.Rows.{UpTo-later, key_lt_self}
use korean_stock_trading_sys.Storage.Replay.{
  Event, bought, sold, note, notes, time_of, row_of, IsReadable, DayBook, note-DayBook, lots_of,
  sums_of, lots_after, sums_after,
}
use korean_stock_trading_sys.Storage.Day.{sums_of-Sums, purchases, profit}
use korean_stock_trading_sys.Main.{
  kept_ledger, Runtime, tell_entries, tell_exits, stepped, on_step, on_force_close, force_closed,
  warn_mismatch,
}
use korean_stock_trading_sys.Main.Noted.{Book, AsBooked, fresh, profits, IsBought, IsSold, Noted}
use korean_stock_trading_sys.Main.Sweeps.{Anything, enters, leaves}

-- What a sweep's report has the ledger record: the purchases, then the sales.
abbrev pub events_of : StepReport → List Event
events_of report = map bought report.entry_events ++ map sold report.exit_events

-- Each event is accepted by the table that the events before it have left.
abbrev pub Accepted : List Event → Recorder → Type 0
Accepted [] r = Unit {0}
Accepted (e ∷ es) r = (accepts (row_of e) r.orders ≡ true) × Accepted es (note e r)

-- The ledger's rows of the day, none later than k, stand for the executor's lots, and the risk
-- manager's counters are the sums of the rows.
pub record Booked {W S : Type 0} (date : ℕ) (k : Datetime) (d : Book) (s : DailyPnlSnapshot)
    (r : Recorder) (rt : Runtime W S) : Type 0 where
  pub kept : rt.ledger ≡ kept_ledger r
  pub sound : rt.faults ≡ []
  pub day : DayBook date k d s r
  pub lots : Paired AsBooked rt.executor.open_lots d
  pub synced : InSync rt.executor
  pub entries : rt.executor.risk.entries_today ≡ s.entries_today
  pub profit_is : rt.executor.risk.daily_realized_pnl_krw ≡ s.realized_pnl_krw

-- A book at a later time.
DayBook-later :
    (date : ℕ) (k now : Datetime) (d : Book) (s : DailyPnlSnapshot) (r : Recorder)
    → DayBook date k d s r
    → key_lt (stamp now).key (stamp k).key ≡ false
    → DayBook date now d s r
DayBook-later date k now d s r b late = record {
  is_open = b.is_open;
  up_to = UpTo-later (stamp k).key (stamp now).key _ b.up_to late;
  sorted = b.sorted;
  positions = b.positions;
  sums = b.sums;
}

abbrev IsNow : Datetime → Event → Type 0
IsNow now e = (time_of e ≡ now) × (is_naive (time_of e) ≡ false) × IsReadable e

IsNow-events :
    (now : Datetime) (es : List EntryEvent) (xs : List ExitEvent)
    → All (IsBought now) es
    → All (IsSold now) xs
    → All (IsNow now) (map bought es ++ map sold xs)
IsNow-events now [] [] h k = tt
IsNow-events now [] (x ∷ xs) h k = ((k.0.0, k.0.1, tt), IsNow-events now [] xs tt k.1)
IsNow-events now (e ∷ es) xs h k = (h.0, IsNow-events now es xs h.1 k)

notes_now :
    (date : ℕ) (now : Datetime) (es : List Event) (d : Book) (s : DailyPnlSnapshot) (r : Recorder)
    → now.date ≡ date
    → All (IsNow now) es
    → Accepted es r
    → DayBook date now d s r
    → DayBook date now (lots_of es d) (sums_of es s) (notes es r)
unfolding notes lots_of sums_of
notes_now date now [] d s r at h a b = b
notes_now date now (e ∷ es) d s r at h a b =
    notes_now date now es (lots_after e d) (sums_after e s) (note e r) at h.1 a.1 (
      subst (λ (t : Datetime). DayBook date t (lots_after e d) (sums_after e s) (note e r)) h.0.0
        (note-DayBook b e (record {
          of_day = ap (λ (t : Datetime). t.date) h.0.0 ∙ at;
          aware = h.0.1;
          not_before =
              subst (λ (t : Datetime). key_lt (stamp t).key (stamp now).key ≡ false) (sym h.0.0)
                (key_lt_self (stamp now).key);
          accepted = a.0;
          readable = h.0.2;
        })))

told_purchases :
    (es : List EntryEvent) (xs : List ExitEvent)
    → (purchases (map bought es ++ map sold xs) ≡ length es)
      × (profit (map bought es ++ map sold xs) ≡ profits xs)
unfolding purchases profit profits
told_purchases [] [] = (refl, refl)
told_purchases [] (x ∷ xs) =
    ((told_purchases [] xs).0, ap (λ (z : ℤ). x.net_pnl_krw +ℤ z) (told_purchases [] xs).1)
told_purchases (e ∷ es) xs = (omega (arith, (told_purchases es xs).0), (told_purchases es xs).1)

lots_of-append : (es fs : List Event) (d : Book) → lots_of (es ++ fs) d ≡ lots_of fs (lots_of es d)
unfolding lots_of
lots_of-append [] fs d = refl
lots_of-append (e ∷ es) fs d = lots_of-append es fs (lots_after e d)

-- The report is of the state that it comes with.
abbrev Tells : {W S E : Type 0} → Result E StepReport × Executor W S → Type 0
Tells (ok report, x) =
    (report.entry_events ≡ x.sweep_entry_events) × (report.exit_events ≡ x.sweep_exit_events)
Tells (err e, x) = Unit

Tells-continue :
    (W S E A : Type 0) (r : Result E A) (x : Executor W S)
    (f : A → Exec (Executor W S) E StepReport)
    → ((a : A) (y : Executor W S) → Tells (f a y))
    → Tells (continue r f x)
Tells-continue W S E A (ok a) x f h = h a x
Tells-continue W S E A (err e) x f h = tt

module _ (W : Type 0) (st : Strategy) (out : Outside W) (c : ExecutorConfig)
    (symbols : List String) where
  abbrev M : Type 0 → Type 0
  M A = Method W st.State st.Error out c A

  told :
      (A : Type 0) (m : M A) (f : A → M StepReport)
      → ((a : A) (y : Executor W st.State) → Tells (f a y))
      → (x : Executor W st.State) → Tells ((m >>= f) x)
  told A m f h x = Tells-continue W st.State (ExecutorError st.Error) A (m x).0 (m x).1 f h

  step_body-Tells :
      (fuel : ℕ) (now : Datetime) (x : Executor W st.State)
      → Tells (step_body W st out c symbols fuel now x)
  unfolding step_body close_sweep
  step_body-Tells fuel now = told _ (take_pending W st out c symbols) _ λ pending.
      told _ (process_signals W st.State st.Error out c fuel now pending) _ λ n.
        told _ (reconcile W st out c symbols) _ λ report.
          told _ (each_symbol W st out c symbols fuel now symbols) _ λ counts.
            told _ (asked W st out c symbols (st.on_time now)) _ λ timed.
              told _ (process_signals W st.State st.Error out c fuel now timed) _
                λ m y. (refl, refl)

  force_close_body-Tells :
      (fuel : ℕ) (now : Datetime) (x : Executor W st.State)
      → Tells (force_close_body W st out c symbols fuel now x)
  unfolding force_close_body close_sweep
  force_close_body-Tells fuel now = told _ (reconcile W st out c symbols) _ λ report.
      told _ (asked W st out c symbols (st.on_time now)) _ λ timed.
        told _ (process_signals W st.State st.Error out c fuel now timed) _ λ m y. (refl, refl)

  abbrev swept : Executor W st.State → Executor W st.State
  swept x = record x { sweep_entry_events = []; sweep_exit_events = [] }

  open_sweep-swept :
      (now : Datetime) (x : Executor W st.State)
      → Ends (λ y. y ≡ swept x) (λ y. Unit {0}) (open_sweep W st out c symbols now x)
  unfolding open_sweep
  open_sweep-swept now x = elim (Bool-cases (is_naive now)) [
    | inl naive ↦ rw naive tt
    | inr aware ↦ elim (Bool-cases (no_day W st out c symbols x)) [
      | inl none_begun ↦ rw (aware, none_begun) tt
      | inr begun ↦ rw (aware, begun) refl
    ]
  ]

  -- What a sweep leaves that began with the book d and returns.
  abbrev Swept : Book → DailyPnlSnapshot → Datetime → StepReport → Executor W st.State → Type 0
  Swept d s now report x =
      Noted d s.entries_today s.realized_pnl_krw now x.open_lots x.risk report.entry_events
        report.exit_events

  abbrev SweptOk :
      Book
      → DailyPnlSnapshot
      → Datetime
      → Result (ExecutorError st.Error) StepReport × Executor W st.State
      → Type 0
  SweptOk d s now (ok report, x) = Swept d s now report x
  SweptOk d s now (err e, x) = Unit

  from_Noted :
      (d : Book) (s : DailyPnlSnapshot) (now : Datetime)
      (o : Result (ExecutorError st.Error) StepReport × Executor W st.State)
      → Tells o
      → Ends
          (λ (x : Executor W st.State).
            Noted d s.entries_today s.realized_pnl_krw now x.open_lots x.risk x.sweep_entry_events
              x.sweep_exit_events)
          (λ x. Unit {0})
          o
      → SweptOk d s now o
  from_Noted d s now (err e, x) t h = tt
  from_Noted d s now (ok report, x) t h = rw (t.0, t.1) h

  opened_then :
      (d : Book) (s : DailyPnlSnapshot) (now : Datetime) (x : Executor W st.State)
      (body : M StepReport) (o : Result (ExecutorError st.Error) (Unit {0}) × Executor W st.State)
      → Ends (λ y. y ≡ swept x) (λ y. Unit {0}) o
      → SweptOk d s now (body (swept x))
      → SweptOk d s now (continue o.0 (λ _. body) o.1)
  opened_then d s now x body (err e, y) h k = tt
  opened_then d s now x body (ok _, y) h k =
      subst (λ (y : Executor W st.State). SweptOk d s now (body y)) (sym h) k

  module _ (date : ℕ) (k : Datetime) (d : Book) (s : DailyPnlSnapshot) (r : Recorder)
      (rt : Runtime W st.State) (b : Booked date k d s r rt) (now : Datetime) where
    begins :
        Noted d s.entries_today s.realized_pnl_krw now rt.executor.open_lots rt.executor.risk [] []
    unfolding lots_of profits
    begins = record {
      synced = b.synced;
      entries = omega (arith, b.entries);
      profit_is = b.profit_is ∙ omega int_laws;
      all_bought = tt;
      all_sold = tt;
      booked = λ f. (b.lots, tt);
    }

    step-SweptOk : (fuel : ℕ) → SweptOk d s now (step W st out c symbols fuel now rt.executor)
    unfolding step
    step-SweptOk fuel =
        opened_then d s now rt.executor (step_body W st out c symbols fuel now)
          (open_sweep W st out c symbols now rt.executor) (open_sweep-swept now rt.executor)
          (from_Noted d s now (step_body W st out c symbols fuel now (swept rt.executor))
            (step_body-Tells fuel now (swept rt.executor))
            ((step_body_keeps W st out c symbols (Noted d s.entries_today s.realized_pnl_krw now)
                Anything (λ lots m es xs v. tt) now
                (enters W st.State st.Error out c d s.entries_today s.realized_pnl_krw now)
                (leaves W st.State st.Error out c d s.entries_today s.realized_pnl_krw now)
                fuel).keep
              (swept rt.executor) begins))

    force_close-SweptOk :
        (fuel : ℕ) → SweptOk d s now (force_close_all W st out c symbols fuel now rt.executor)
    unfolding force_close_all
    force_close-SweptOk fuel =
        opened_then d s now rt.executor (force_close_body W st out c symbols fuel now)
          (open_sweep W st out c symbols now rt.executor) (open_sweep-swept now rt.executor)
          (from_Noted d s now (force_close_body W st out c symbols fuel now (swept rt.executor))
            (force_close_body-Tells fuel now (swept rt.executor))
            ((force_close_body_keeps W st out c symbols
                (Noted d s.entries_today s.realized_pnl_krw now) Anything (λ lots m es xs v. tt) now
                (enters W st.State st.Error out c d s.entries_today s.realized_pnl_krw now)
                (leaves W st.State st.Error out c d s.entries_today s.realized_pnl_krw now)
                fuel).keep
              (swept rt.executor) begins))

-- A runtime with this ledger and executor, and no fault ahead.
abbrev Has : {W S : Type 0} → Recorder → Executor W S → Runtime W S → Type 0
Has r x rt = (rt.ledger ≡ kept_ledger r) × (rt.faults ≡ []) × (rt.executor ≡ x)

module _ {W S : Type 0} where
  tell_entries-Has :
      (es : List EntryEvent) (r : Recorder) (x : Executor W S) (rt : Runtime W S)
      → Has r x rt
      → Has (notes (map bought es) r) x (tell_entries es rt)
  unfolding tell_entries notes note
  tell_entries-Has [] r x rt h = h
  tell_entries-Has (e ∷ es) r x rt h =
      tell_entries-Has es (note (bought e) r) x _ (rw (h.0, h.1) (refl, refl, h.2))

  tell_exits-Has :
      (xs : List ExitEvent) (r : Recorder) (x : Executor W S) (rt : Runtime W S)
      → Has r x rt
      → Has (notes (map sold xs) r) x (tell_exits xs rt)
  unfolding tell_exits notes note
  tell_exits-Has [] r x rt h = h
  tell_exits-Has (e ∷ xs) r x rt h =
      tell_exits-Has xs (note (sold e) r) x _ (rw (h.0, h.1) (refl, refl, h.2))

notes-append : (es fs : List Event) (r : Recorder) → notes (es ++ fs) r ≡ notes fs (notes es r)
unfolding notes
notes-append [] fs r = refl
notes-append (e ∷ es) fs r = notes-append es fs (note e r)

module _ {W S : Type 0} (date : ℕ) (k now : Datetime) (d : Book) (s : DailyPnlSnapshot)
    (r : Recorder) (report : StepReport) where
  abbrev After : Runtime W S → Type 0
  After =
      Booked date now (lots_of (events_of report) d) (sums_of (events_of report) s)
        (notes (events_of report) r)

  settled :
      (x : Executor W S) (rt : Runtime W S)
      → DayBook date k d s r
      → now.date ≡ date
      → key_lt (stamp now).key (stamp k).key ≡ false
      → Noted d s.entries_today s.realized_pnl_krw now x.open_lots x.risk report.entry_events
          report.exit_events
      → fresh report.entry_events d ≡ true
      → Accepted (events_of report) r
      → Has (notes (events_of report) r) x rt
      → After rt
  settled x rt b at late n f a h =
      let sums = sums_of-Sums (events_of report) s in
      let counts = told_purchases report.entry_events report.exit_events in
      record {
        kept = h.0;
        sound = h.1;
        day =
            notes_now date now (events_of report) d s r at
              (IsNow-events now report.entry_events report.exit_events n.all_bought n.all_sold) a
              (DayBook-later date k now d s r b late);
        lots =
            subst₂ (λ (y : Executor W S) (e : Book). Paired AsBooked y.open_lots e) (sym h.2)
              (sym
                (lots_of-append (map bought report.entry_events) (map sold report.exit_events) d))
              (n.booked f).0;
        synced = subst (λ (y : Executor W S). InSync y) (sym h.2) n.synced;
        entries =
            ap (λ (y : Executor W S). y.risk.entries_today) h.2
            ∙ n.entries
            ∙ omega (arith, sums.0, counts.0);
        profit_is =
            ap (λ (y : Executor W S). y.risk.daily_realized_pnl_krw) h.2
            ∙ n.profit_is
            ∙ ap (λ (z : ℤ). s.realized_pnl_krw +ℤ z) (sym counts.1)
            ∙ sym sums.1;
      }

  told_all :
      (x : Executor W S) (rt : Runtime W S)
      → Has r x rt
      → Has
          (notes (events_of report) r)
          x
          (tell_exits report.exit_events (tell_entries report.entry_events rt))
  told_all x rt h =
      let told =
        tell_exits-Has report.exit_events (notes (map bought report.entry_events) r) x
          (tell_entries report.entry_events rt) (tell_entries-Has report.entry_events r x rt h) in
      (
        told.0
            ∙ ap kept_ledger (
                sym
                  (notes-append (map bought report.entry_events) (map sold report.exit_events) r)),
        told.1,
        told.2,
      )

module _ (W : Type 0) (st : Strategy) (out : Outside W) (c : ExecutorConfig)
    (orb : Option (Restorer st.State st.Error)) (symbols : List String) (date : ℕ) (k : Datetime)
    (d : Book) (s : DailyPnlSnapshot) (r : Recorder) (rt : Runtime W st.State)
    (b : Booked date k d s r rt) (now : Datetime) (at : now.date ≡ date)
    (late : key_lt (stamp now).key (stamp k).key ≡ false) (fuel : ℕ) (report : StepReport)
    (x : Executor W st.State) where
  mismatch_kept :
      (rt : Runtime W st.State)
      → Has (notes (events_of report) r) x rt
      → Has (notes (events_of report) r) x (warn_mismatch W st out c orb symbols report rt)
  mismatch_kept rt h = elim (Bool-cases (is_cons report.reconcile.mismatch_symbols)) [
    | inl warned ↦ rw warned h
    | inr quiet ↦ rw quiet h
  ]

  abbrev quiet_step : Runtime W st.State
  quiet_step =
      tell_exits report.exit_events (tell_entries report.entry_events (record rt { executor = x }))

  on_step-eq :
      rt.started ≡ true
      → step W st out c symbols fuel now rt.executor ≡ (ok report, x)
      → on_step W st out c orb symbols fuel now rt
        ≡ warn_mismatch W st out c orb symbols report quiet_step
  unfolding on_step
  on_step-eq running e =
      ap
        (λ (b : Bool).
          if b
          then stepped W st out c orb symbols (step W st out c symbols fuel now rt.executor) rt
          else record rt { fail_logged = true })
        running
      ∙ ap (λ o. stepped W st out c orb symbols o rt) e

  -- A sweep that returns, of symbols that are bought anew, with events that the table accepts.
  pub on_step-Booked :
      rt.started ≡ true
      → step W st out c symbols fuel now rt.executor ≡ (ok report, x)
      → fresh report.entry_events d ≡ true
      → Accepted (events_of report) r
      → Booked date now
          (lots_of (events_of report) d)
          (sums_of (events_of report) s)
          (notes (events_of report) r)
          (on_step W st out c orb symbols fuel now rt)
  on_step-Booked running e f a =
      subst
        (λ (y : Runtime W st.State).
          Booked date now (lots_of (events_of report) d) (sums_of (events_of report) s)
            (notes (events_of report) r) y)
        (sym (on_step-eq running e))
        (settled date k now d s r report x (warn_mismatch W st out c orb symbols report quiet_step)
          b.day at late
          (subst (SweptOk W st out c symbols d s now) e
            (step-SweptOk W st out c symbols date k d s r rt b now fuel))
          f a
          (mismatch_kept quiet_step (
            told_all date k now d s r report x (record rt { executor = x })
              (b.kept, b.sound, refl))))

  on_force_close-eq :
      force_close_all W st out c symbols fuel now rt.executor ≡ (ok report, x)
      → report.entry_events ≡ []
      → on_force_close W st out c orb symbols fuel now rt ≡ quiet_step
  unfolding on_force_close tell_entries
  on_force_close-eq e none_bought =
      ap (λ o. force_closed W st out c orb symbols o rt) e
      ∙ ap
          (λ (es : List EntryEvent).
            tell_exits report.exit_events (tell_entries es (record rt { executor = x })))
          (sym none_bought)

  -- A forced closing that returns and buys nothing.
  pub on_force_close-Booked :
      force_close_all W st out c symbols fuel now rt.executor ≡ (ok report, x)
      → report.entry_events ≡ []
      → Accepted (events_of report) r
      → Booked date now
          (lots_of (events_of report) d)
          (sums_of (events_of report) s)
          (notes (events_of report) r)
          (on_force_close W st out c orb symbols fuel now rt)
  unfolding fresh
  on_force_close-Booked e none_bought a =
      subst
        (λ (y : Runtime W st.State).
          Booked date now (lots_of (events_of report) d) (sums_of (events_of report) s)
            (notes (events_of report) r) y)
        (sym (on_force_close-eq e none_bought))
        (settled date k now d s r report x quiet_step b.day at late
          (subst (SweptOk W st out c symbols d s now) e
            (force_close-SweptOk W st out c symbols date k d s r rt b now fuel))
          (ap (λ (es : List EntryEvent). fresh es d) none_bought) a
          (told_all date k now d s r report x (record rt { executor = x }) (b.kept, b.sound, refl)))
