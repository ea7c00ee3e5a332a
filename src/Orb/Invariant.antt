-- ===== src/Orb/Invariant.antt =====
-- The lines of the long positions of `ORBStrategy`, and the errors that it raises.
use korean_stock_trading_sys.Common.{
  ℕ, ◌≡◌, inl, inr, refl, ap, true, Option, none, some, is_some, List, [], ◌∷◌, String, ltb, ◌==◌,
  All, arith, Bool-cases, Option-cases,
}
use korean_stock_trading_sys.Common.Dict.{
  Dict, get, remove, AllValues, AllValues-get, AllValues-put, AllValues-remove,
}
use korean_stock_trading_sys.Common.Exec.{is_ok, Result, ok, err}
use korean_stock_trading_sys.Decimal.{Decimal, not_positive}
use korean_stock_trading_sys.Symbol.{line_match}
use korean_stock_trading_sys.Clock.{Datetime, is_naive}
use korean_stock_trading_sys.Signal.{Signal, MinuteBar}
use korean_stock_trading_sys.Orb.{
  OrbError, StrategyConfig, PositionState, flat, long, closed, SymbolState, OrbStrategy, state_of,
  in_session, is_reversed, accumulate_or, Machine, enter_long, lines, check_exit, seek_entry,
  dispatch_position, dispatch_bar, observed, on_bar, close_price, is_long, forced, prepend,
  close_all, on_time, restore_long_position, reset_session, mark_session_closed, remove_all,
  missing_lines, missing_price,
}

abbrev HasLines : PositionState → Option Decimal → Option Decimal → Option Decimal → Type 0
HasLines long e s t = (is_some e ≡ true) × (is_some s ≡ true) × (is_some t ≡ true)
HasLines _ e s t = Unit

-- A long position has an entry price and both protective lines.
abbrev pub IsSound : SymbolState → Type 0
IsSound st = HasLines st.position_state st.entry_price st.stop_price st.take_price

abbrev pub AllSound : OrbStrategy → Type 0
AllSound s = AllValues IsSound s.states

-- A sound state after it, and no error.
abbrev Fine : Machine → Type 0
Fine (r, st) = IsSound st × (is_ok r ≡ true)

seek_entry-Fine :
    (c : StrategyConfig) (bar : MinuteBar) (st : SymbolState)
    → st.position_state ≡ flat
    → Fine (seek_entry c bar st)
unfolding seek_entry enter_long
seek_entry-Fine c bar st h = ground arith

check_exit-Fine :
    (bar : MinuteBar) (st : SymbolState)
    → st.position_state ≡ long
    → HasLines long st.entry_price st.stop_price st.take_price
    → Fine (check_exit bar st)
unfolding check_exit lines
check_exit-Fine bar st e h = ground arith

position-Fine :
    (c : StrategyConfig) (bar : MinuteBar) (p : PositionState) (st : SymbolState)
    → st.position_state ≡ p
    → HasLines p st.entry_price st.stop_price st.take_price
    → Fine (dispatch_position c bar p st)
unfolding dispatch_position
position-Fine c bar flat st e h = seek_entry-Fine c bar st e
position-Fine c bar long st e h = check_exit-Fine bar st e h
position-Fine c bar closed st e h = ground arith

dispatch_bar-Fine :
    (c : StrategyConfig) (bar : MinuteBar) (st : SymbolState)
    → IsSound st
    → Fine (dispatch_bar c bar st)
unfolding dispatch_bar
dispatch_bar-Fine c bar st h = elim (Bool-cases (ltb bar.bar_time.time c.or_start)) [
  | inl early ↦ rw (early, dispatch_bar) (h, refl)
  | inr e ↦ elim (Bool-cases (ltb bar.bar_time.time c.or_end)) [
    | inl opening ↦
        rw (e, dispatch_bar) (rw (opening, dispatch_bar) (unfold accumulate_or in (h, refl)))
    | inr e' ↦
        rw (e, dispatch_bar)
          (rw (e', dispatch_bar) (position-Fine c bar st.position_state _ refl h))
  ]
]

in_session-IsSound : (date : ℕ) (st : SymbolState) → IsSound st → IsSound (in_session date st)
unfolding in_session
in_session-IsSound date st h = elim (Option-cases st.session_date) [
  | inl e ↦ rw (e, in_session) tt
  | inr (d, e) ↦ elim (Bool-cases (d == date)) [
    | inl same ↦ rw (e, in_session) (rw (same, in_session) h)
    | inr other ↦ rw (e, in_session) (rw (other, in_session) tt)
  ]
]

state_of-IsSound : (s : OrbStrategy) (k : String) → AllSound s → IsSound (state_of s k)
state_of-IsSound s k h = elim (Option-cases (get k s.states)) [
  | inl e ↦ rw (e, state_of) tt
  | inr (st, e) ↦ rw (e, state_of) (AllValues-get IsSound k s.states h e)
]

-- No `StrategyError`.
abbrev pub IsInput : OrbError → Type 0
IsInput missing_lines = ⊥
IsInput missing_price = ⊥
IsInput _ = Unit

abbrev pub IsClean {ℓ} : {A : Type ℓ} → Result OrbError A → Type 0
IsClean (ok _) = Unit
IsClean (err e) = IsInput e

IsClean-of_ok {ℓ} : {A : Type ℓ} (r : Result OrbError A) → is_ok r ≡ true → IsClean r
IsClean-of_ok (ok a) h = tt
IsClean-of_ok (err e) h = cc

on_bar_sound :
    (bar : MinuteBar) (s : OrbStrategy)
    → AllSound s
    → AllSound (on_bar bar s).1 × IsClean (on_bar bar s).0
unfolding on_bar
on_bar_sound bar s h =
    let st = in_session bar.bar_time.date (state_of s bar.symbol) in
    let sound : IsSound st =
      in_session-IsSound bar.bar_time.date (state_of s bar.symbol)
        (state_of-IsSound s bar.symbol h) in
    let fine = dispatch_bar-Fine s.config bar (observed bar st) sound in
    elim (Bool-cases (line_match bar.symbol)) [
      | inr bad ↦ rw (bad, on_bar) (h, tt)
      | inl good ↦ elim (Bool-cases (is_naive bar.bar_time)) [
        | inl naive ↦ rw (good, on_bar) (rw (naive, on_bar) (h, tt))
        | inr aware ↦ elim (Bool-cases (is_reversed st bar)) [
          | inl back ↦
              rw (good, on_bar)
                (rw (aware, on_bar)
                  (rw (back, on_bar) (AllValues-put IsSound bar.symbol st s.states sound h, tt)))
          | inr on ↦
              rw (good, on_bar)
                (rw (aware, on_bar)
                  (rw (on, on_bar)
                    (AllValues-put IsSound bar.symbol _ s.states fine.0 h, IsClean-of_ok _ fine.1)))
        ]
      ]
    ]

close_price-some :
    (st : SymbolState) → is_some st.entry_price ≡ true → is_some (close_price st) ≡ true
unfolding close_price
close_price-some st h = ground arith

long_entry :
    (p : PositionState) (e s t : Option Decimal)
    → is_long p ≡ true
    → HasLines p e s t
    → is_some e ≡ true
long_entry long e s t l h = h.0
long_entry flat e s t l h = cc
long_entry closed e s t l h = cc

-- A sound long position has a price for a forced exit.
pub long_price :
    (st : SymbolState)
    → IsSound st
    → is_long st.position_state ≡ true
    → (price : Decimal) × (close_price st ≡ some price)
long_price st h l = elim (Option-cases (close_price st)) [
  | inr found ↦ found
  | inl missing ↦ absurd (
      cc (
        close_price-some st
            (long_entry st.position_state st.entry_price st.stop_price st.take_price l h),
        ap is_some missing,
      ))
]

prepend-ok :
    (sig : Signal) (r : Result OrbError (List Signal))
    → is_ok r ≡ true
    → is_ok (prepend sig r) ≡ true
prepend-ok sig (ok sigs) h = refl
prepend-ok sig (err e) h = cc

close_all-IsSound :
    (now : Datetime) (d : Dict SymbolState)
    → AllValues IsSound d
    → AllValues IsSound (close_all now d).1 × (is_ok (close_all now d).0 ≡ true)
unfolding close_all
close_all-IsSound now [] h = (tt, refl)
close_all-IsSound now ((k, st) ∷ d) h = elim (Bool-cases (is_long st.position_state)) [
  | inr other ↦ rw (other, close_all) (let (a, b) = close_all-IsSound now d h.1 in ((h.0, a), b))
  | inl held ↦
      let (price, e) = long_price st h.0 held in
      let (a, b) = close_all-IsSound now d h.1 in
      rw (held, close_all)
        (rw (e, close_all) ((tt, a), prepend-ok (forced now k price) (close_all now d).0 b))
]

on_time_sound :
    (now : Datetime) (s : OrbStrategy)
    → AllSound s
    → AllSound (on_time now s).1 × IsClean (on_time now s).0
unfolding on_time
on_time_sound now s h = elim (Bool-cases (is_naive now)) [
  | inl naive ↦ rw (naive, on_time) (h, tt)
  | inr aware ↦ elim (Bool-cases (ltb now.time s.config.force_close_at)) [
    | inl early ↦ rw (aware, on_time) (rw (early, on_time) (h, tt))
    | inr late ↦
        rw (aware, on_time)
          (rw (late, on_time)
            (let (a, b) = close_all-IsSound now s.states h in (a, IsClean-of_ok _ b)))
  ]
]

restore_sound :
    (k : String) (price : Decimal) (ts : Datetime) (s : OrbStrategy)
    → AllSound s
    → AllSound (restore_long_position k price ts s).1
      × IsClean (restore_long_position k price ts s).0
unfolding restore_long_position
restore_sound k price ts s h = elim (Bool-cases (line_match k)) [
  | inr bad ↦ rw (bad, restore_long_position) (h, tt)
  | inl good ↦ elim (Bool-cases (is_naive ts)) [
    | inl naive ↦ rw (good, restore_long_position) (rw (naive, restore_long_position) (h, tt))
    | inr aware ↦ elim (Bool-cases (not_positive price)) [
      | inl low ↦
          rw (good, restore_long_position)
            (rw (aware, restore_long_position) (rw (low, restore_long_position) (h, tt)))
      | inr high ↦
          rw (good, restore_long_position)
            (rw (aware, restore_long_position)
              (rw (high, restore_long_position)
                (AllValues-put IsSound k _ s.states (refl, refl, refl) h, tt)))
    ]
  ]
]

mark_sound :
    (k : String) (date : ℕ) (s : OrbStrategy)
    → AllSound s
    → AllSound (mark_session_closed k date s).1 × IsClean (mark_session_closed k date s).0
unfolding mark_session_closed
mark_sound k date s h = elim (Bool-cases (line_match k)) [
  | inr bad ↦ rw (bad, mark_session_closed) (h, tt)
  | inl good ↦ rw (good, mark_session_closed) (AllValues-put IsSound k _ s.states tt h, tt)
]

reset_sound : (ks : List String) (s : OrbStrategy) → AllSound s → AllSound (reset_session ks s)
unfolding reset_session
reset_sound [] s h = tt
reset_sound (k ∷ ks) s h = removed (k ∷ ks) s.states h
  where
    removed :
        (ks : List String) (d : Dict SymbolState)
        → AllValues IsSound d
        → AllValues IsSound (remove_all ks d)
    removed [] d h = h
    removed (k ∷ ks) d h = removed ks (remove k d) (AllValues-remove IsSound k d h)

-- One call of a method of the strategy.
pub data Call : Type 0 where
  bar : MinuteBar → Call
  tick : Datetime → Call
  restore : String → Decimal → Datetime → Call
  mark : String → ℕ → Call
  reset : List String → Call

-- The state after a call, and its error if it raised.
abbrev error_of {ℓ} : {A : Type ℓ} → Result OrbError A → Option OrbError
error_of (ok _) = none
error_of (err e) = some e

unfoldable pub call : Call → OrbStrategy → Option OrbError × OrbStrategy
call (bar b) s = let (r, s') = on_bar b s in (error_of r, s')
call (tick now) s = let (r, s') = on_time now s in (error_of r, s')
call (restore k price ts) s = let (r, s') = restore_long_position k price ts s in (error_of r, s')
call (mark k date) s = let (r, s') = mark_session_closed k date s in (error_of r, s')
call (reset ks) s = (none, reset_session ks s)

-- The errors of a sequence of calls; the caller goes on after a raise.
unfoldable pub errors : List Call → OrbStrategy → List OrbError
errors [] s = []
errors (c ∷ cs) s =
    let (e, s') = call c s in let rest = errors cs s' in elim e [ none ↦ rest | some x ↦ x ∷ rest ]

abbrev IsCleanError : Option OrbError → Type 0
IsCleanError none = Unit
IsCleanError (some e) = IsInput e

clean-error {ℓ} : {A : Type ℓ} (r : Result OrbError A) → IsClean r → IsCleanError (error_of r)
clean-error (ok a) h = tt
clean-error (err e) h = h

call_sound :
    (c : Call) (s : OrbStrategy) → AllSound s → AllSound (call c s).1 × IsCleanError (call c s).0
unfolding call
call_sound (bar b) s h = let (a, e) = on_bar_sound b s h in (a, clean-error (on_bar b s).0 e)
call_sound (tick now) s h =
    let (a, e) = on_time_sound now s h in (a, clean-error (on_time now s).0 e)
call_sound (restore k price ts) s h =
    let (a, e) = restore_sound k price ts s h in
    (a, clean-error (restore_long_position k price ts s).0 e)
call_sound (mark k date) s h =
    let (a, e) = mark_sound k date s h in (a, clean-error (mark_session_closed k date s).0 e)
call_sound (reset ks) s h = (reset_sound ks s h, tt)

cons_clean :
    (e : Option OrbError) (es : List OrbError)
    → IsCleanError e
    → All IsInput es
    → All IsInput (elim e [ none ↦ es | some x ↦ x ∷ es ])
cons_clean none es c h = h
cons_clean (some x) es c h = (c, h)

-- From a state whose long positions have their lines, such as the new strategy, no sequence of
-- calls, in whatever order and with whatever arguments, meets a `StrategyError`: the only errors are those of bad input.
pub errors-IsInput : (cs : List Call) (s : OrbStrategy) → AllSound s → All IsInput (errors cs s)
unfolding errors
errors-IsInput [] s h = tt
errors-IsInput (c ∷ cs) s h =
    let (a, e) = call_sound c s h in
    cons_clean (call c s).0 (errors cs (call c s).1) e (errors-IsInput cs (call c s).1 a)
