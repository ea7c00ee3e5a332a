-- ===== src/Realtime/Runs.antt =====
-- data/realtime.py: the bars of a symbol against the ticks that made them.
use mathlib.Core.Option.{none, some}
use text.Mathlib.Text.{◌==◌}
use text.Mathlib.TextEquality.{eq_iff}
use korean_stock_trading_sys.Common.{
  ◌≡◌, ◌≢◌, refl, sym, ap, ◌∙◌, subst, inl, inr, Bool, true, false, Bool-cases, Option-cases, List,
  [], ◌∷◌, ◌++◌, map, String, arith, All, append_assoc, append-nil, if◌then◌else◌,
}
use korean_stock_trading_sys.Common.Dict.{get, put, get-put_self, get-put_ne}
use korean_stock_trading_sys.Decimal.{Decimal, max_dec, min_dec, lt, le}
use korean_stock_trading_sys.Signal.{MinuteBar}
use korean_stock_trading_sys.Realtime.{
  TickQuote, BarAccumulator, RealtimeDataStore, empty_accumulator, floor_to_minute, same_instant,
  new_bar, extend_bar, take_tick, on_tick,
}

-- Ticks that follow each other, the first one apart.
pub record Run : Type 0 where
  pub first : TickQuote
  pub rest : List TickQuote

abbrev pub ticks_of : List Run → List TickQuote
ticks_of [] = []
ticks_of (r ∷ rs) = (r.first ∷ r.rest) ++ ticks_of rs

abbrev pub same_minute : TickQuote → TickQuote → Bool
same_minute t u = same_instant (floor_to_minute t.ts) (floor_to_minute u.ts)

abbrev pub InMinute : Run → Type 0
InMinute r = All (λ t. same_minute t r.first ≡ true) r.rest

-- Each run begins in another minute than the one before it.
abbrev pub Separate : List Run → Type 0
Separate [] = Unit
Separate (r ∷ []) = Unit
Separate (r ∷ s ∷ rs) = (same_minute s.first r.first ≡ false) × Separate (s ∷ rs)

-- The price over a list by a choice between two, and the last price.
abbrev pub over : (Decimal → Decimal → Decimal) → Decimal → List TickQuote → Decimal
over f x [] = x
over f x (t ∷ ts) = over f (f x t.price) ts

abbrev pub last_price : Decimal → List TickQuote → Decimal
last_price x [] = x
last_price x (t ∷ ts) = last_price t.price ts

-- Open, high, low and close of a run.
abbrev pub bar_of : Run → MinuteBar
bar_of r = record {
  symbol = r.first.symbol;
  bar_time = floor_to_minute r.first.ts;
  open_price = r.first.price;
  high = over max_dec r.first.price r.rest;
  low = over min_dec r.first.price r.rest;
  close = last_price r.first.price r.rest;
  volume = 0;
}

-- The bars of the ticks, closed and current, are those of their runs.
pub record Shows (ts : List TickQuote) (acc : BarAccumulator) : Type 0 where
  pub closed_runs : List Run
  pub current_run : Run
  pub whole : ticks_of (closed_runs ++ (current_run ∷ [])) ≡ ts
  pub minutes : All InMinute (closed_runs ++ (current_run ∷ []))
  pub separate : Separate (closed_runs ++ (current_run ∷ []))
  pub closed : acc.closed_bars ≡ map bar_of closed_runs
  pub current : acc.current_bar ≡ some (bar_of current_run)

over-snoc :
    (f : Decimal → Decimal → Decimal) (x : Decimal) (ts : List TickQuote) (t : TickQuote)
    → over f x (ts ++ (t ∷ [])) ≡ f (over f x ts) t.price
over-snoc f x [] t = refl
over-snoc f x (u ∷ ts) t = over-snoc f (f x u.price) ts t

last_price-snoc :
    (x : Decimal) (ts : List TickQuote) (t : TickQuote) → last_price x (ts ++ (t ∷ [])) ≡ t.price
last_price-snoc x [] t = refl
last_price-snoc x (u ∷ ts) t = last_price-snoc u.price ts t

abbrev longer : Run → TickQuote → Run
longer r t = record { first = r.first; rest = r.rest ++ (t ∷ []) }

max_dec_lem : (x y : Decimal) → (if le y x then x else y) ≡ max_dec x y
unfolding le max_dec lt
max_dec_lem x y = ground arith

min_dec_lem : (x y : Decimal) → (if le x y then x else y) ≡ min_dec x y
unfolding le min_dec lt
min_dec_lem x y = ground arith

extend_bar-bar_of : (r : Run) (t : TickQuote) → extend_bar (bar_of r) t ≡ bar_of (longer r t)
unfolding extend_bar
extend_bar-bar_of r t =
    rw
      (
        over-snoc max_dec r.first.price r.rest t,
        over-snoc min_dec r.first.price r.rest t,
        last_price-snoc r.first.price r.rest t,
        max_dec_lem (over max_dec r.first.price r.rest) t.price,
        min_dec_lem (over min_dec r.first.price r.rest) t.price,
      )
      refl

-- Another tick in the last run, and another run.
ticks_of-longer :
    (rs : List Run) (r : Run) (t : TickQuote)
    → ticks_of (rs ++ (longer r t ∷ [])) ≡ ticks_of (rs ++ (r ∷ [])) ++ (t ∷ [])
ticks_of-longer [] r t =
    ap (λ l. r.first ∷ l)
      (append-nil (r.rest ++ (t ∷ [])) ∙ ap (λ l. l ++ (t ∷ [])) (sym (append-nil r.rest)))
ticks_of-longer (q ∷ rs) r t =
    ap (λ l. (q.first ∷ q.rest) ++ l) (ticks_of-longer rs r t)
    ∙ sym (append_assoc (q.first ∷ q.rest) (ticks_of (rs ++ (r ∷ []))) (t ∷ []))

ticks_of-append : (rs qs : List Run) → ticks_of (rs ++ qs) ≡ ticks_of rs ++ ticks_of qs
ticks_of-append [] qs = refl
ticks_of-append (r ∷ rs) qs =
    ap (λ l. (r.first ∷ r.rest) ++ l) (ticks_of-append rs qs)
    ∙ sym (append_assoc (r.first ∷ r.rest) (ticks_of rs) (ticks_of qs))

All-snoc :
    {A : Type 0} (P : A → Type 0) (xs : List A) (x : A) → All P xs → P x → All P (xs ++ (x ∷ []))
All-snoc P [] x h p = (p, tt)
All-snoc P (y ∷ xs) x h p = (h.0, All-snoc P xs x h.1 p)

All-last :
    {A : Type 0} (P : A → Type 0) (xs : List A) (x : A) → All P (xs ++ (x ∷ [])) → All P xs × P x
All-last P [] x h = (tt, h.0)
All-last P (y ∷ xs) x h = let (hs, p) = All-last P xs x h.1 in ((h.0, hs), p)

Separate-longer :
    (rs : List Run) (r : Run) (t : TickQuote)
    → Separate (rs ++ (r ∷ []))
    → Separate (rs ++ (longer r t ∷ []))
Separate-longer [] r t h = tt
Separate-longer (q ∷ []) r t h = h
Separate-longer (q ∷ p ∷ rs) r t h = (h.0, Separate-longer (p ∷ rs) r t h.1)

Separate-snoc :
    (rs : List Run) (r s : Run)
    → Separate (rs ++ (r ∷ []))
    → same_minute s.first r.first ≡ false
    → Separate ((rs ++ (r ∷ [])) ++ (s ∷ []))
Separate-snoc [] r s h d = (d, tt)
Separate-snoc (q ∷ []) r s h d = (h.0, (d, tt))
Separate-snoc (q ∷ p ∷ rs) r s h d = (h.0, Separate-snoc (p ∷ rs) r s h.1 d)

map-snoc :
    (rs : List Run) (r : Run) → map bar_of (rs ++ (r ∷ [])) ≡ map bar_of rs ++ (bar_of r ∷ [])
map-snoc [] r = refl
map-snoc (q ∷ rs) r = ap (λ l. bar_of q ∷ l) (map-snoc rs r)

abbrev single : TickQuote → Run
single t = record { first = t; rest = [] }

first-Shows :
    (t : TickQuote) (acc : BarAccumulator)
    → acc.closed_bars ≡ []
    → acc.current_bar ≡ none
    → Shows (t ∷ []) (take_tick t acc)
unfolding take_tick new_bar
first-Shows t acc none_closed none_there =
    rw (none_there, take_tick)
      (record {
        closed_runs = [];
        current_run = single t;
        whole = refl;
        minutes = (tt, tt);
        separate = tt;
        closed = none_closed;
        current = refl;
      })

take_tick-Shows :
    (ts : List TickQuote) (t : TickQuote) (acc : BarAccumulator)
    → Shows ts acc
    → Shows (ts ++ (t ∷ [])) (take_tick t acc)
unfolding take_tick new_bar
take_tick-Shows ts t acc h = elim (Bool-cases (same_minute t h.current_run.first)) [
  | inl same ↦
      rw (h.current, take_tick)
        (rw same (record {
          closed_runs = h.closed_runs;
          current_run = longer h.current_run t;
          whole = ticks_of-longer h.closed_runs h.current_run t ∙ ap (λ l. l ++ (t ∷ [])) h.whole;
          minutes = inside same;
          separate = Separate-longer h.closed_runs h.current_run t h.separate;
          closed = h.closed;
          current = ap some (extend_bar-bar_of h.current_run t);
        }))
  | inr other ↦
      rw (h.current, take_tick)
        (rw other (record {
          closed_runs = h.closed_runs ++ (h.current_run ∷ []);
          current_run = single t;
          whole =
              ticks_of-append (h.closed_runs ++ (h.current_run ∷ [])) (single t ∷ [])
              ∙ ap (λ l. l ++ (t ∷ [])) h.whole;
          minutes = All-snoc InMinute _ (single t) h.minutes tt;
          separate = Separate-snoc h.closed_runs h.current_run (single t) h.separate other;
          closed =
              ap (λ l. l ++ (bar_of h.current_run ∷ [])) h.closed
              ∙ sym (map-snoc h.closed_runs h.current_run);
          current = refl;
        }))
]
  where
    inside :
        same_minute t h.current_run.first ≡ true
        → All InMinute (h.closed_runs ++ (longer h.current_run t ∷ []))
    inside same =
        let (before, last) = All-last InMinute h.closed_runs h.current_run h.minutes in
        All-snoc InMinute h.closed_runs (longer h.current_run t) before
          (All-snoc (λ u. same_minute u h.current_run.first ≡ true) h.current_run.rest t last same)

-- The ticks of one symbol, and the store behind ticks of all symbols.
unfoldable pub ticks_for : String → List TickQuote → List TickQuote
ticks_for k [] = []
ticks_for k (t ∷ ts) = let rest = ticks_for k ts in if t.symbol == k then t ∷ rest else rest

unfoldable pub deliver : List TickQuote → RealtimeDataStore → RealtimeDataStore
deliver [] s = s
deliver (t ∷ ts) s = deliver ts (on_tick t s)

-- The same with an untouched accumulator where there are no ticks.
abbrev pub Shown : List TickQuote → BarAccumulator → Type 0
Shown [] acc = acc ≡ empty_accumulator
Shown (t ∷ ts) acc = Shows (t ∷ ts) acc

Shown-take_tick :
    (past : List TickQuote) (t : TickQuote) (acc : BarAccumulator)
    → Shown past acc
    → Shown (past ++ (t ∷ [])) (take_tick t acc)
Shown-take_tick [] t acc h =
    first-Shows t acc (ap (λ a. a.closed_bars) h) (ap (λ a. a.current_bar) h)
Shown-take_tick (u ∷ past) t acc h = take_tick-Shows (u ∷ past) t acc h

abbrev Keeps : String → List TickQuote → RealtimeDataStore → Type 0
Keeps k past s = (acc : BarAccumulator) × (get k s.accumulators ≡ some acc) × Shown past acc

on_tick-Keeps :
    (k : String) (past : List TickQuote) (t : TickQuote) (s : RealtimeDataStore)
    → t.symbol ≡ k
    → Keeps k past s
    → Keeps k (past ++ (t ∷ [])) (on_tick t s)
unfolding on_tick
on_tick-Keeps k past t s same (acc, there, shown) =
    let found : get t.symbol s.accumulators ≡ some acc =
      ap (λ j. get j s.accumulators) same ∙ there in
    rw (found, on_tick)
      (
        take_tick t acc,
        subst (λ j. get j (put t.symbol (take_tick t acc) s.accumulators) ≡ some (take_tick t acc))
            same (get-put_self t.symbol (take_tick t acc) s.accumulators),
        Shown-take_tick past t acc shown,
      )

on_tick-Keeps_ne :
    (k : String) (past : List TickQuote) (t : TickQuote) (s : RealtimeDataStore)
    → k ≢ t.symbol
    → Keeps k past s
    → Keeps k past (on_tick t s)
unfolding on_tick
on_tick-Keeps_ne k past t s other (acc, there, shown) =
    elim (Option-cases (get t.symbol s.accumulators)) [
      | inl unknown ↦ rw (unknown, on_tick) (acc, there, shown)
      | inr (a, known) ↦
          rw (known, on_tick)
            (acc, get-put_ne t.symbol k (take_tick t a) s.accumulators other ∙ there, shown)
    ]

deliver-Keeps :
    (k : String) (ts past : List TickQuote) (s : RealtimeDataStore)
    → Keeps k past s
    → Keeps k (past ++ ticks_for k ts) (deliver ts s)
unfolding deliver ticks_for
deliver-Keeps k [] past s h = subst (λ l. Keeps k l s) (sym (append-nil past)) h
deliver-Keeps k (t ∷ ts) past s h = elim (Bool-cases (t.symbol == k)) [
  | inl same ↦ rw same (
      subst (λ l. Keeps k l (deliver ts (on_tick t s)))
        (append_assoc past (t ∷ []) (ticks_for k ts))
        (deliver-Keeps k ts (past ++ (t ∷ [])) (on_tick t s)
          (on_tick-Keeps k past t s (ground (arith, eq_iff t.symbol k, same)) h)))
  | inr other ↦ rw other (
      deliver-Keeps k ts past (on_tick t s)
        (on_tick-Keeps_ne k past t s (λ e. ground (arith, eq_iff t.symbol k, other, sym e)) h))
]

-- Behind any ticks of any symbols, the accumulator of a subscribed symbol shows the runs of its ticks.
pub deliver-Shown :
    (k : String) (ts : List TickQuote) (s : RealtimeDataStore)
    → get k s.accumulators ≡ some empty_accumulator
    → (acc : BarAccumulator) × (get k (deliver ts s).accumulators ≡ some acc)
      × Shown (ticks_for k ts) acc
deliver-Shown k ts s h = deliver-Keeps k ts [] s (empty_accumulator, h, refl)
