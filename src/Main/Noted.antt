-- ===== src/Main/Noted.antt =====
-- execution/executor.py and storage/db.py: what the events of a sweep say of the lots behind it.
use korean_stock_trading_sys.Common.{
  ℕ, ◌+◌, ◌≡◌, ◌≢◌, refl, sym, ◌∙◌, ap, subst, Bool, true, false, not, ◌&&◌, ℤ, pos, ◌+ℤ◌, List, [],
  ◌∷◌, ◌++◌, String, map, length, All, int_laws, arith,
}
use korean_stock_trading_sys.Common.Dict.{
  Dict, contains, put, remove, remove-put_ne, contains-put, contains-remove,
}
use korean_stock_trading_sys.Common.Paired.{Paired, Paired-put, Paired-remove, contains-Paired}
use korean_stock_trading_sys.Clock.{Datetime, is_naive}
use korean_stock_trading_sys.Risk.{RiskManager}
use korean_stock_trading_sys.Risk.Session.{filled, dropped}
use korean_stock_trading_sys.Executor.{OpenLot, EntryEvent, ExitEvent}
use korean_stock_trading_sys.Executor.InSync.{Matches}
use korean_stock_trading_sys.Storage.{OpenPositionRow, open_row_ok}
use korean_stock_trading_sys.Storage.Replay.{bought, sold, position_of, lots_after, lots_of}

abbrev pub Book : Type 0
Book = Dict OpenPositionRow

-- An open lot and the row that stands for it.
abbrev pub AsBooked : OpenLot → OpenPositionRow → Type 0
AsBooked lot p = (lot.qty ≡ p.qty) × (lot.entry_price ≡ p.entry_price)

-- No symbol is bought that is open in the book or was bought before.
unfoldable pub fresh : List EntryEvent → Book → Bool
fresh [] d = true
fresh (e ∷ es) d = not (contains e.symbol d) && fresh es (lots_after (bought e) d)

abbrev pub entries_on : List EntryEvent → Book → Book
entries_on es d = lots_of (map bought es) d

abbrev pub exits_on : List ExitEvent → Book → Book
exits_on xs d = lots_of (map sold xs) d

unfoldable pub profits : List ExitEvent → ℤ
profits [] = pos 0
profits (x ∷ xs) = x.net_pnl_krw +ℤ profits xs

-- Only symbols of the book are sold.
abbrev pub AllIn : List ExitEvent → Book → Type 0
AllIn xs d = All (λ (x : ExitEvent). contains x.symbol d ≡ true) xs

abbrev pub IsBought : Datetime → EntryEvent → Type 0
IsBought now e =
    (e.timestamp ≡ now) × (is_naive e.timestamp ≡ false) × (open_row_ok (position_of e) ≡ true)

abbrev pub IsSold : Datetime → ExitEvent → Type 0
IsSold now x = (x.timestamp ≡ now) × (is_naive x.timestamp ≡ false)

-- Lots, manager and events of a sweep that began with the book d, n entries and the profit z.
pub record Noted (d : Book) (n : ℕ) (z : ℤ) (now : Datetime) (lots : Dict OpenLot) (m : RiskManager)
    (es : List EntryEvent) (xs : List ExitEvent) : Type 0 where
  pub synced : Paired Matches lots m.active_positions
  pub entries : m.entries_today ≡ n + length es
  pub profit_is : m.daily_realized_pnl_krw ≡ z +ℤ profits xs
  pub all_bought : All (IsBought now) es
  pub all_sold : All (IsSold now) xs
  pub booked :
      fresh es d ≡ true
      → Paired AsBooked lots (exits_on xs (entries_on es d)) × AllIn xs (entries_on es d)

pub All-snoc {ℓ κ} :
    {A : Type ℓ} (P : A → Type κ) (xs : List A) (x : A) → All P xs → P x → All P (xs ++ (x ∷ []))
All-snoc P [] x h p = (p, tt)
All-snoc P (y ∷ xs) x h p = (h.0, All-snoc P xs x h.1 p)

pub length-snoc {ℓ} : {A : Type ℓ} (xs : List A) (x : A) → length (xs ++ (x ∷ [])) ≡ length xs + 1
length-snoc [] x = omega arith
length-snoc (y ∷ xs) x = omega (arith, length-snoc xs x)

profits-snoc :
    (xs : List ExitEvent) (x : ExitEvent) → profits (xs ++ (x ∷ [])) ≡ profits xs +ℤ x.net_pnl_krw
unfolding profits
profits-snoc [] x = omega int_laws
profits-snoc (y ∷ xs) x = rw (profits-snoc xs x) (omega int_laws)

fresh-snoc :
    (es : List EntryEvent) (e : EntryEvent) (d : Book)
    → fresh (es ++ (e ∷ [])) d ≡ true
    → (fresh es d ≡ true) × (contains e.symbol (entries_on es d) ≡ false)
unfolding fresh lots_of
fresh-snoc [] e d h = (refl, ground arith)
fresh-snoc (x ∷ es) e d h = ground (arith, fresh-snoc es e (lots_after (bought x) d))

entries_on-snoc :
    (es : List EntryEvent) (e : EntryEvent) (d : Book)
    → entries_on (es ++ (e ∷ [])) d ≡ lots_after (bought e) (entries_on es d)
unfolding lots_of
entries_on-snoc [] e d = refl
entries_on-snoc (x ∷ es) e d = entries_on-snoc es e (lots_after (bought x) d)

exits_on-snoc :
    (xs : List ExitEvent) (x : ExitEvent) (d : Book)
    → exits_on (xs ++ (x ∷ [])) d ≡ remove x.symbol (exits_on xs d)
unfolding lots_of
exits_on-snoc [] x d = refl
exits_on-snoc (y ∷ xs) x d = exits_on-snoc xs x (remove y.symbol d)

contains-exits_on :
    (s : String) (xs : List ExitEvent) (d : Book)
    → contains s (exits_on xs d) ≡ true
    → contains s d ≡ true
unfolding lots_of
contains-exits_on s [] d h = h
contains-exits_on s (x ∷ xs) d h =
    contains-remove s x.symbol d (contains-exits_on s xs (remove x.symbol d) h)

-- Sales of other symbols and a purchase can be told in either order.
exits_on-put :
    (s : String) (p : OpenPositionRow) (xs : List ExitEvent) (d : Book)
    → All (λ (x : ExitEvent). x.symbol ≢ s) xs
    → exits_on xs (put s p d) ≡ put s p (exits_on xs d)
unfolding lots_of
exits_on-put s p [] d h = refl
exits_on-put s p (x ∷ xs) d h =
    ap (λ (b : Book). exits_on xs b) (remove-put_ne x.symbol s p d h.0)
    ∙ exits_on-put s p xs (remove x.symbol d) h.1

others :
    (s : String) (xs : List ExitEvent) (d : Book)
    → AllIn xs d
    → contains s d ≡ false
    → All (λ (x : ExitEvent). x.symbol ≢ s) xs
others s [] d h k = tt
others s (x ∷ xs) d h k = (λ e. cc (h.0, k, e), others s xs d h.1 k)

AllIn-put :
    (s : String) (p : OpenPositionRow) (xs : List ExitEvent) (d : Book)
    → AllIn xs d
    → AllIn xs (put s p d)
AllIn-put s p [] d h = tt
AllIn-put s p (x ∷ xs) d h = (contains-put x.symbol s p d h.0, AllIn-put s p xs d h.1)

module _ {d : Book} {n : ℕ} {z : ℤ} {now : Datetime} {lots : Dict OpenLot} {m : RiskManager}
    {es : List EntryEvent} {xs : List ExitEvent} (h : Noted d n z now lots m es xs) where
  booked_purchase :
      (e : EntryEvent) (lot : OpenLot)
      → AsBooked lot (position_of e)
      → fresh (es ++ (e ∷ [])) d ≡ true
      → Paired AsBooked (put e.symbol lot lots) (exits_on xs (entries_on (es ++ (e ∷ [])) d))
        × AllIn xs (entries_on (es ++ (e ∷ [])) d)
  booked_purchase e lot agree f =
      let (before, new) = fresh-snoc es e d f in
      let b = h.booked before in
      let book = entries_on es d in
      rw (entries_on-snoc es e d) (
        subst (λ (x : Book). Paired AsBooked (put e.symbol lot lots) x)
            (sym (exits_on-put e.symbol (position_of e) xs book (others e.symbol xs book b.1 new)))
            (Paired-put AsBooked e.symbol lot (position_of e) lots (exits_on xs book) agree b.0),
        AllIn-put e.symbol (position_of e) xs book b.1,
      )

  -- A purchase of the sweep.
  pub purchase-Noted :
      (e : EntryEvent) (lot : OpenLot) (ts : Datetime)
      → AsBooked lot (position_of e)
      → IsBought now e
      → Noted d n z now
          (put e.symbol lot lots)
          (filled e.symbol e.fill_price e.qty ts m)
          (es ++ (e ∷ []))
          xs
  purchase-Noted e lot ts agree ok = record {
    synced = Paired-put Matches e.symbol lot _ lots m.active_positions agree h.synced;
    entries = omega (arith, h.entries, length-snoc es e);
    profit_is = h.profit_is;
    all_bought = All-snoc (IsBought now) es e h.all_bought ok;
    all_sold = h.all_sold;
    booked = booked_purchase e lot agree;
  }

  booked_sale :
      (x : ExitEvent)
      → contains x.symbol m.active_positions ≡ true
      → fresh es d ≡ true
      → Paired AsBooked (remove x.symbol lots) (exits_on (xs ++ (x ∷ [])) (entries_on es d))
        × AllIn (xs ++ (x ∷ [])) (entries_on es d)
  booked_sale x held f =
      let b = h.booked f in
      let book = entries_on es d in
      let there : contains x.symbol (exits_on xs book) ≡ true =
        sym (contains-Paired AsBooked x.symbol lots (exits_on xs book) b.0)
        ∙ contains-Paired Matches x.symbol lots m.active_positions h.synced
        ∙ held in
      (
        subst (λ (y : Book). Paired AsBooked (remove x.symbol lots) y)
            (sym (exits_on-snoc xs x book))
            (Paired-remove AsBooked x.symbol lots (exits_on xs book) b.0),
        All-snoc (λ (y : ExitEvent). contains y.symbol book ≡ true) xs x b.1
            (contains-exits_on x.symbol xs book there),
      )

  -- A sale of the sweep.
  pub sale-Noted :
      (x : ExitEvent)
      → contains x.symbol m.active_positions ≡ true
      → IsSold now x
      → Noted d n z now
          (remove x.symbol lots)
          (dropped x.symbol x.net_pnl_krw m)
          es
          (xs ++ (x ∷ []))
  sale-Noted x held ok = record {
    synced = Paired-remove Matches x.symbol lots m.active_positions h.synced;
    entries = h.entries;
    profit_is = rw (h.profit_is, profits-snoc xs x) (omega int_laws);
    all_bought = h.all_bought;
    all_sold = All-snoc (IsSold now) xs x h.all_sold ok;
    booked = booked_sale x held;
  }
