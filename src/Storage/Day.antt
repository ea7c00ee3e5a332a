-- ===== src/Storage/Day.antt =====
-- storage/db.py: a day's events, recorded and read back by a process that starts again.
use text.Mathlib.Text.{◌==◌}
use text.Mathlib.TextEquality.{eq_iff}
use korean_stock_trading_sys.Common.Dict.{is_in}
use korean_stock_trading_sys.Common.{
  ℕ, ◌+◌, ◌≡◌, refl, ◌∙◌, Bool, true, false, ℤ, pos, ◌+ℤ◌, ◌||◌, List, [], ◌∷◌, String, int_laws,
  arith,
}
use korean_stock_trading_sys.Clock.{Datetime}
use korean_stock_trading_sys.Storage.{
  DailyPnlSnapshot, Recorder, of_session, sort_rows, replay, tally, empty_pnl, insert_symbol,
  values, load_open_positions, load_daily_pnl,
}
use korean_stock_trading_sys.Storage.Replay.{
  Event, bought, sold, DayBook, notes, CanNotes, lots_of, sums_of, sums_after, notes-DayBook,
  DayBook-loads,
}

-- What a day's events say of its sums.
unfoldable pub purchases : List Event → ℕ
purchases [] = 0
purchases (bought e ∷ es) = purchases es + 1
purchases (sold e ∷ es) = purchases es

unfoldable pub profit : List Event → ℤ
profit [] = pos 0
profit (bought e ∷ es) = profit es
profit (sold e ∷ es) = e.net_pnl_krw +ℤ profit es

pub is_sold : String → List Event → Bool
is_sold s [] = false
is_sold s (bought e ∷ es) = is_sold s es
is_sold s (sold e ∷ es) = e.symbol == s || is_sold s es

is_in-insert_symbol :
    (s t : String) (xs : List String) → is_in s (insert_symbol t xs) ≡ (t == s || is_in s xs)
unfolding is_in insert_symbol
is_in-insert_symbol s t [] = refl
is_in-insert_symbol s t (x ∷ xs) =
    ground (arith, is_in-insert_symbol s t xs, eq_iff t x, eq_iff t s, eq_iff x s)

-- The sums, from any sums before.
abbrev pub Sums : List Event → DailyPnlSnapshot → DailyPnlSnapshot → Type 0
Sums es s s' =
    (s'.entries_today ≡ s.entries_today + purchases es)
    × (s'.realized_pnl_krw ≡ s.realized_pnl_krw +ℤ profit es)
    × ((t : String) → is_in t s'.closed_symbols ≡ (is_sold t es || is_in t s.closed_symbols))

pub sums_of-Sums : (es : List Event) (s : DailyPnlSnapshot) → Sums es s (sums_of es s)
unfolding sums_of purchases profit is_sold
sums_of-Sums [] s = (omega arith, omega int_laws, λ t. refl)
sums_of-Sums (bought e ∷ es) s =
    let h = sums_of-Sums es (sums_after (bought e) s) in (omega (arith, h.0), h.1, h.2)
sums_of-Sums (sold e ∷ es) s =
    let h = sums_of-Sums es (sums_after (sold e) s) in
    (
      h.0,
      h.1 ∙ omega int_laws,
      λ t. h.2 t ∙ ground (arith, is_in-insert_symbol t e.symbol s.closed_symbols),
    )

pub no_rows-DayBook :
    (date : ℕ) (k : Datetime) (r : Recorder)
    → r.closed ≡ false
    → of_session date r.orders ≡ []
    → DayBook date k [] (empty_pnl date) r
unfolding sort_rows replay tally
no_rows-DayBook date k r c e = record {
  is_open = c;
  up_to = rw e tt;
  sorted = rw e refl;
  positions = rw e refl;
  sums = rw e refl;
}

-- Into an open ledger without rows of the day, events of the day are recorded, in the order of their
-- times, each accepted by the table and each purchase readable. Then the query for the open positions
-- gives what the events leave open, in the order in which it was bought, and the query for the day
-- gives the number of purchases, the sum of the profits and exactly the symbols that were sold.
pub load-notes :
    (date : ℕ) (k : Datetime) (es : List Event) (r : Recorder)
    → r.closed ≡ false
    → of_session date r.orders ≡ []
    → CanNotes date k es r
    → let snapshot = (load_daily_pnl date false (notes es r)).0 in
      ((load_open_positions date false (notes es r)).0 ≡ values (lots_of es []))
      × (snapshot.entries_today ≡ purchases es)
      × (snapshot.realized_pnl_krw ≡ profit es)
      × ((t : String) → is_in t snapshot.closed_symbols ≡ is_sold t es)
load-notes date k es r c e n =
    let sums = sums_of es (empty_pnl date) in
    let loads =
      DayBook-loads date _ (lots_of es []) sums (notes es r)
        (notes-DayBook date k es [] (empty_pnl date) r (no_rows-DayBook date k r c e) n) in
    let h = sums_of-Sums es (empty_pnl date) in
    rw (loads.0, loads.1)
      (refl, h.0 ∙ omega arith, h.1 ∙ omega int_laws, λ t. h.2 t ∙ no_more t (is_sold t es))
  where
    no_more : (t : String) (b : Bool) → (b || is_in t []) ≡ b
    no_more t true = unfold is_in in refl
    no_more t false = unfold is_in in refl
