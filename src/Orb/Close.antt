-- ===== src/Orb/Close.antt =====
-- The forced close: `on_time`.
use korean_stock_trading_sys.Common.{
  ℕ, ◌≤◌, ◌<◌, ◌≡◌, inl, inr, refl, ap, true, false, none, some, List, [], ◌∷◌, ltb, arith,
  Bool-cases,
}
use korean_stock_trading_sys.Common.Dict.{Dict, AllValues}
use korean_stock_trading_sys.Common.Exec.{ok}
use korean_stock_trading_sys.Clock.{Datetime, is_naive}
use korean_stock_trading_sys.Signal.{Signal}
use korean_stock_trading_sys.Orb.{
  SymbolState, OrbStrategy, close_price, is_long, forced, prepend, close_all, on_time,
}
use korean_stock_trading_sys.Orb.Invariant.{IsSound, AllSound, long_price}

abbrev pub NotLong : SymbolState → Type 0
NotLong st = is_long st.position_state ≡ false

-- One forced exit for each long symbol, in the order of the dictionary.
abbrev pub expected : Datetime → Dict SymbolState → List Signal
expected now [] = []
expected now ((k, st) ∷ d) = elim (is_long st.position_state) [
  | true ↦ elim (close_price st) [
    | none ↦ expected now d
    | some price ↦ forced now k price ∷ expected now d
  ]
  | false ↦ expected now d
]

close_all-closes :
    (now : Datetime) (d : Dict SymbolState)
    → AllValues IsSound d
    → ((close_all now d).0 ≡ ok (expected now d)) × AllValues NotLong (close_all now d).1
unfolding close_all
close_all-closes now [] h = (refl, tt)
close_all-closes now ((k, st) ∷ d) h = elim (Bool-cases (is_long st.position_state)) [
  | inr other ↦
      let (a, b) = close_all-closes now d h.1 in rw (other, close_all, expected) (a, (other, b))
  | inl held ↦
      let (price, e) = long_price st h.0 held in
      let (a, b) = close_all-closes now d h.1 in
      rw (held, close_all, expected)
        (rw (e, close_all, expected) (ap (prepend (forced now k price)) a, (refl, b)))
]

-- Where long positions have their lines and the time is aware: at the closing time and after it,
-- `on_time` sends one exit for each long symbol, in order and at
-- its last close or entry price, and nobody is long then; before that it does nothing.
pub on_time-closes :
    (now : Datetime) (s : OrbStrategy)
    → AllSound s
    → is_naive now ≡ false
    → (s.config.force_close_at ≤ now.time
        → ((on_time now s).0 ≡ ok (expected now s.states))
          × AllValues NotLong (on_time now s).1.states)
      × (now.time < s.config.force_close_at → on_time now s ≡ (ok [], s))
unfolding on_time
on_time-closes now s h aware = (
  (λ late.
      rw (aware, on_time)
        (rw (not_early now.time s.config.force_close_at late, on_time)
          (close_all-closes now s.states h))),
  (λ early. ground arith),
)
  where
    not_early : (a b : ℕ) → b ≤ a → ltb a b ≡ false
    not_early a b h = ground arith
