-- ===== src/Storage/Replay.antt =====
-- storage/db.py: what is read back of a day is what its events come to.
use korean_stock_trading_sys.Common.{
  ℕ, ◌+◌, ◌≡◌, refl, ◌∙◌, ap, subst, true, false, ◌+ℤ◌, some, List, [], ◌∷◌, ◌++◌, arith,
}
use korean_stock_trading_sys.Common.Dict.{Dict, put, remove}
use korean_stock_trading_sys.Clock.{Datetime, is_naive}
use korean_stock_trading_sys.Executor.{EntryEvent, ExitEvent, buy, sell}
use korean_stock_trading_sys.Storage.{
  OrderRow, OpenPositionRow, DailyPnlSnapshot, Recorder, Op, entry_op, exit_op, stamp, key_lt,
  of_session, sort_rows, insert_row, replay_row, replay, tally_row, tally, empty_pnl, accepts,
  insert_order, on_success, entry_row, exit_row, record_entry, record_exit, open_row, open_row_ok,
  read_open, insert_symbol, values, load_open_positions, load_daily_pnl,
}
use korean_stock_trading_sys.Storage.Rows.{
  UpTo, UpTo-later, UpTo-snoc, insert_row_last, sort_rows-append, of_session-append, replay-snoc,
  tally-snoc,
}

pub data Event : Type 0 where
  bought : EntryEvent → Event
  sold : ExitEvent → Event

-- An event is recorded, and sqlite3 raises at no call.
unfoldable pub note : Event → Recorder → Recorder
note (bought e) r = record_entry false e r
note (sold e) r = record_exit false e r

abbrev pub row_of : Event → OrderRow
row_of (bought e) = entry_row e
row_of (sold e) = exit_row e

abbrev pub time_of : Event → Datetime
time_of (bought e) = e.timestamp
time_of (sold e) = e.timestamp

abbrev pub position_of : EntryEvent → OpenPositionRow
position_of e = open_row (entry_row e) e.qty e.fill_price e.timestamp

-- The open positions behind an event.
abbrev pub lots_after : Event → Dict OpenPositionRow → Dict OpenPositionRow
lots_after (bought e) d = put e.symbol (position_of e) d
lots_after (sold e) d = remove e.symbol d

abbrev pub sums_after : Event → DailyPnlSnapshot → DailyPnlSnapshot
sums_after (bought e) s = record s { entries_today = s.entries_today + 1 }
sums_after (sold e) s = record s {
  realized_pnl_krw = s.realized_pnl_krw +ℤ e.net_pnl_krw;
  closed_symbols = insert_symbol e.symbol s.closed_symbols;
}

-- A purchase that the class of the open positions takes.
abbrev pub IsReadable : Event → Type 0
IsReadable (bought e) = open_row_ok (position_of e) ≡ true
IsReadable (sold e) = Unit {0}

-- An event of the day, not before the time k, that the table accepts.
pub record CanNote (date : ℕ) (k : Datetime) (e : Event) (r : Recorder) : Type 0 where
  pub of_day : (time_of e).date ≡ date
  pub aware : is_naive (time_of e) ≡ false
  pub not_before : key_lt (stamp (time_of e)).key (stamp k).key ≡ false
  pub accepted : accepts (row_of e) r.orders ≡ true
  pub readable : IsReadable e

-- The rows of a day, none of them later than k, stand for these open positions and these sums.
pub record DayBook (date : ℕ) (k : Datetime) (d : Dict OpenPositionRow) (s : DailyPnlSnapshot)
    (r : Recorder) : Type 0 where
  pub is_open : r.closed ≡ false
  pub up_to : UpTo (stamp k).key (of_session date r.orders)
  pub sorted : sort_rows [] (of_session date r.orders) ≡ of_session date r.orders
  pub positions : replay (of_session date r.orders) [] ≡ (d, 0)
  pub sums : tally (of_session date r.orders) (empty_pnl date) ≡ (s, 0)

of_session_last :
    (row : OrderRow) (rows : List OrderRow)
    → of_session row.session_date (rows ++ (row ∷ []))
      ≡ of_session row.session_date rows ++ (row ∷ [])
of_session_last row rows =
    of_session-append row.session_date rows (row ∷ [])
    ∙ ap (λ (l : List OrderRow). of_session row.session_date rows ++ l) (alone row)
  where
    alone : (row : OrderRow) → of_session row.session_date (row ∷ []) ≡ row ∷ []
    alone row = unfold of_session in ground arith

note_row :
    (op : Op) (row : OrderRow) (r : Recorder)
    → accepts row r.orders ≡ true
    → (insert_order op false row r).orders ≡ r.orders ++ (row ∷ [])
unfolding insert_order on_success
note_row op row r h = rw h

insert_open :
    (op : Op) (row : OrderRow) (r : Recorder)
    → accepts row r.orders ≡ true
    → r.closed ≡ false
    → (insert_order op false row r).closed ≡ false
unfolding insert_order on_success
insert_open op row r h c = rw h c

noted_entry :
    (e : EntryEvent) (r : Recorder)
    → r.closed ≡ false
    → is_naive e.timestamp ≡ false
    → note (bought e) r ≡ insert_order entry_op false (entry_row e) r
unfolding note record_entry
noted_entry e r c a = ground arith

noted_exit :
    (e : ExitEvent) (r : Recorder)
    → r.closed ≡ false
    → is_naive e.timestamp ≡ false
    → note (sold e) r ≡ insert_order exit_op false (exit_row e) r
unfolding note record_exit
noted_exit e r c a = ground arith

replayed_entry :
    (e : EntryEvent) (d : Dict OpenPositionRow)
    → open_row_ok (position_of e) ≡ true
    → replay_row buy (entry_row e) d ≡ some (lots_after (bought e) d)
unfolding replay_row read_open
replayed_entry e d h = ground arith

replayed_exit :
    (e : ExitEvent) (d : Dict OpenPositionRow)
    → replay_row sell (exit_row e) d ≡ some (lots_after (sold e) d)
unfolding replay_row
replayed_exit e d = refl

tallied :
    (e : Event) (s : DailyPnlSnapshot)
    → tally_row (row_of e).side (row_of e) s ≡ some (sums_after e s)
unfolding tally_row
tallied (bought e) s = refl
tallied (sold e) s = refl

module _ {date : ℕ} {k : Datetime} {d : Dict OpenPositionRow} {s : DailyPnlSnapshot} {r : Recorder}
    (b : DayBook date k d s r) where
  -- One more row at the end of the day.
  extended :
      (l : Datetime) (row : OrderRow) (d' : Dict OpenPositionRow) (s' : DailyPnlSnapshot)
      (r' : Recorder)
      → r'.closed ≡ false
      → of_session date r'.orders ≡ of_session date r.orders ++ (row ∷ [])
      → row.filled_at.key ≡ (stamp l).key
      → key_lt (stamp l).key (stamp k).key ≡ false
      → replay_row row.side row d ≡ some d'
      → tally_row row.side row s ≡ some s'
      → DayBook date l d' s' r'
  unfolding sort_rows
  extended l row d' s' r' c e at late lots sums =
      let rows = of_session date r.orders in
      let before : UpTo (stamp l).key rows =
        UpTo-later (stamp k).key (stamp l).key rows b.up_to late in
      record {
        is_open = c;
        up_to = rw e (UpTo-snoc (stamp l).key rows row before at);
        sorted = rw e (
            sort_rows-append [] rows (row ∷ [])
            ∙ ap (insert_row row) b.sorted
            ∙ insert_row_last row rows (rw at before));
        positions = rw e (replay-snoc rows row [] d d' b.positions lots);
        sums = rw e (tally-snoc rows row (empty_pnl date) s s' b.sums sums);
      }

  extended_by_insert :
      (op : Op) (l : Datetime) (row : OrderRow) (d' : Dict OpenPositionRow) (s' : DailyPnlSnapshot)
      → row.session_date ≡ date
      → accepts row r.orders ≡ true
      → row.filled_at.key ≡ (stamp l).key
      → key_lt (stamp l).key (stamp k).key ≡ false
      → replay_row row.side row d ≡ some d'
      → tally_row row.side row s ≡ some s'
      → DayBook date l d' s' (insert_order op false row r)
  extended_by_insert op l row d' s' day good at late lots sums =
      extended l row d' s' (insert_order op false row r) (insert_open op row r good b.is_open)
        (ap (of_session date) (note_row op row r good)
          ∙ subst
              (λ (n : ℕ).
                of_session n (r.orders ++ (row ∷ [])) ≡ of_session n r.orders ++ (row ∷ []))
              day (of_session_last row r.orders))
        at late lots sums

  -- An event that can be noted is in the book of the day behind it.
  pub note-DayBook :
      (e : Event)
      → CanNote date k e r
      → DayBook date (time_of e) (lots_after e d) (sums_after e s) (note e r)
  note-DayBook (bought e) n = rw (noted_entry e r b.is_open n.aware) (
      extended_by_insert entry_op e.timestamp (entry_row e) (lots_after (bought e) d)
        (sums_after (bought e) s) n.of_day n.accepted refl n.not_before
        (replayed_entry e d n.readable) (tallied (bought e) s))
  note-DayBook (sold e) n = rw (noted_exit e r b.is_open n.aware) (
      extended_by_insert exit_op e.timestamp (exit_row e) (lots_after (sold e) d)
        (sums_after (sold e) s) n.of_day n.accepted refl n.not_before (replayed_exit e d)
        (tallied (sold e) s))

unfoldable pub notes : List Event → Recorder → Recorder
notes [] r = r
notes (e ∷ es) r = notes es (note e r)

-- Events of one day that the table accepts one behind the other, in the order of their times.
abbrev pub CanNotes : ℕ → Datetime → List Event → Recorder → Type 0
CanNotes date k [] r = Unit
CanNotes date k (e ∷ es) r = CanNote date k e r × CanNotes date (time_of e) es (note e r)

-- What the events come to, without the table.
unfoldable pub lots_of : List Event → Dict OpenPositionRow → Dict OpenPositionRow
lots_of [] d = d
lots_of (e ∷ es) d = lots_of es (lots_after e d)

unfoldable pub sums_of : List Event → DailyPnlSnapshot → DailyPnlSnapshot
sums_of [] s = s
sums_of (e ∷ es) s = sums_of es (sums_after e s)

abbrev last_time : Datetime → List Event → Datetime
last_time k [] = k
last_time k (e ∷ es) = last_time (time_of e) es

pub notes-DayBook :
    (date : ℕ) (k : Datetime) (es : List Event) (d : Dict OpenPositionRow) (s : DailyPnlSnapshot)
    (r : Recorder)
    → DayBook date k d s r
    → CanNotes date k es r
    → DayBook date (last_time k es) (lots_of es d) (sums_of es s) (notes es r)
unfolding notes lots_of sums_of
notes-DayBook date k [] d s r b n = b
notes-DayBook date k (e ∷ es) d s r b n =
    notes-DayBook date (time_of e) es (lots_after e d) (sums_after e s) (note e r)
      (note-DayBook b e n.0) n.1

-- The book of a day gives the answers of both queries.
pub DayBook-loads :
    (date : ℕ) (k : Datetime) (d : Dict OpenPositionRow) (s : DailyPnlSnapshot) (r : Recorder)
    → DayBook date k d s r
    → ((load_open_positions date false r).0 ≡ values d) × ((load_daily_pnl date false r).0 ≡ s)
unfolding load_open_positions load_daily_pnl
DayBook-loads date k d s r b = (rw (b.is_open, b.sorted, b.positions), rw (b.is_open, b.sums))
