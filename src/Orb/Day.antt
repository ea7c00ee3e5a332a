-- ===== src/Orb/Day.antt =====
-- The entries of one day: the states of a symbol within a session.
use korean_stock_trading_sys.Common.{
  ℕ, ◌+◌, ◌≤◌, ◌≡◌, ◌≢◌, inl, inr, refl, sym, ◌∙◌, subst, false, some, List, [], ◌∷◌, ◌++◌, String,
  if◌then◌else◌, All, arith, Bool-cases,
}
use korean_stock_trading_sys.Common.Exec.{Result, ok, err}
use korean_stock_trading_sys.Signal.{Signal, entry, exit, MinuteBar}
use korean_stock_trading_sys.Orb.{
  OrbError, StrategyConfig, PositionState, flat, long, closed, SymbolState, OrbStrategy, state_of,
  store, in_session, accumulate_or, Machine, enter_long, lines, check_exit, seek_entry,
  dispatch_position, dispatch_bar, observed, on_bar, time_reversed,
}
use text.Mathlib.Text.{◌==◌ as str_eq}
use korean_stock_trading_sys.Orb.Cases.{
  opened, read, on_bar_cases, state_of-store_self, state_of-store_ne, in_session-date,
  in_session_same, dispatch_bar-session,
}
use text.Mathlib.TextEquality.{eq_iff}

-- The entries for symbol k among some signals.
abbrev pub entries_of : String → List Signal → ℕ
entries_of k [] = 0
entries_of k (entry s ∷ sigs) = (if str_eq s.symbol k then 1 else 0) + entries_of k sigs
entries_of k (exit s ∷ sigs) = entries_of k sigs

abbrev pub signals_of : Result OrbError (List Signal) → List Signal
signals_of (ok sigs) = sigs
signals_of (err _) = []

-- Bars in turn, and all signals; the caller goes on after a raise.
unfoldable pub feed : List MinuteBar → OrbStrategy → List Signal
feed [] s = []
feed (b ∷ bs) s = let (r, s') = on_bar b s in signals_of r ++ feed bs s'

-- Has k left the state `flat` on this day? 1 or 0.
abbrev used_state : PositionState → ℕ
used_state flat = 0
used_state _ = 1

abbrev used : String → ℕ → OrbStrategy → ℕ
used k date s = used_state (in_session date (state_of s k)).position_state

-- A machine step spends the day's entry as it makes it.
abbrev Spends : String → PositionState → Machine → Type 0
Spends k p (r, st) = entries_of k (signals_of r) + used_state p ≤ used_state st.position_state

dispatch_bar-Spends :
    (k : String) (c : StrategyConfig) (bar : MinuteBar) (st : SymbolState)
    → Spends k st.position_state (dispatch_bar c bar st)
unfolding dispatch_bar dispatch_position seek_entry enter_long check_exit lines accumulate_or
dispatch_bar-Spends k c bar st = ground arith

dispatch_bar-symbol :
    (k : String) (c : StrategyConfig) (bar : MinuteBar) (st : SymbolState)
    → str_eq bar.symbol k ≡ false
    → entries_of k (signals_of (dispatch_bar c bar st).0) ≡ 0
unfolding dispatch_bar dispatch_position seek_entry enter_long check_exit lines accumulate_or
dispatch_bar-symbol k c bar st h = ground arith

-- What a bar does for the symbol k on the day d.
abbrev BarSpends : String → ℕ → MinuteBar → OrbStrategy → Type 0
BarSpends k d bar s =
    entries_of k (signals_of (on_bar bar s).0) + used k d s ≤ used k d (on_bar bar s).1

stored_spends :
    (d : ℕ) (k : String) (s : OrbStrategy) (r : Result OrbError (List Signal)) (st : SymbolState)
    → st.session_date ≡ some d
    → entries_of k (signals_of r) + used k d s ≤ used_state st.position_state
    → entries_of k (signals_of r) + used k d s ≤ used k d (store s k st)
stored_spends d k s r st hd h = rw (state_of-store_self s k st, in_session_same d st hd) h

on_bar-spends_self :
    (bar : MinuteBar) (s : OrbStrategy) → BarSpends bar.symbol bar.bar_time.date bar s
on_bar-spends_self bar s =
    let k = bar.symbol in
    let d = bar.bar_time.date in
    let dated = in_session-date d (state_of s k) in
    on_bar_cases bar s (λ o. entries_of k (signals_of o.0) + used k d s ≤ used k d o.1)
      (λ e. omega arith)
      (stored_spends d k s (err time_reversed) (opened bar s) dated (omega arith))
      (stored_spends d k s (read bar s).0 (read bar s).1
        (dispatch_bar-session s.config bar (observed bar (opened bar s)) ∙ dated)
        (dispatch_bar-Spends k s.config bar (observed bar (opened bar s))))

on_bar-spends_other :
    (k : String) (d : ℕ) (bar : MinuteBar) (s : OrbStrategy)
    → str_eq bar.symbol k ≡ false
    → BarSpends k d bar s
on_bar-spends_other k d bar s h =
    on_bar_cases bar s (λ o. entries_of k (signals_of o.0) + used k d s ≤ used k d o.1)
      (λ e. omega arith)
      (rw (state_of-store_ne s bar.symbol k (opened bar s) distinct) (omega arith))
      (rw
        (
          state_of-store_ne s bar.symbol k (read bar s).1 distinct,
          dispatch_bar-symbol k s.config bar (observed bar (opened bar s)) h,
        )
        (omega arith))
  where
    distinct : k ≢ bar.symbol
    distinct e = cc ((eq_iff bar.symbol k).1 (sym e), h)

on_bar-spends :
    (k : String) (bar : MinuteBar) (s : OrbStrategy) → BarSpends k bar.bar_time.date bar s
on_bar-spends k bar s = elim (Bool-cases (str_eq bar.symbol k)) [
  | inl same ↦
      subst (λ j. BarSpends j bar.bar_time.date bar s) ((eq_iff bar.symbol k).0 same)
        (on_bar-spends_self bar s)
  | inr other ↦ on_bar-spends_other k bar.bar_time.date bar s other
]

entries_of-append :
    (k : String) (xs ys : List Signal) → entries_of k (xs ++ ys) ≡ entries_of k xs + entries_of k ys
entries_of-append k [] ys = omega arith
entries_of-append k (entry s ∷ xs) ys = omega (arith, entries_of-append k xs ys)
entries_of-append k (exit s ∷ xs) ys = entries_of-append k xs ys

abbrev IsOn : ℕ → MinuteBar → Type 0
IsOn d bar = bar.bar_time.date ≡ d

used-le_one : (p : PositionState) → used_state p ≤ 1
used-le_one flat = omega arith
used-le_one _ = omega arith

feed-spends :
    (k : String) (d : ℕ) (bars : List MinuteBar) (s : OrbStrategy)
    → All (IsOn d) bars
    → entries_of k (feed bars s) + used k d s ≤ 1
unfolding feed
feed-spends k d [] s h = omega (arith, used-le_one (in_session d (state_of s k)).position_state)
feed-spends k d (bar ∷ bars) s h = omega (
  arith,
  entries_of-append k (signals_of (on_bar bar s).0) (feed bars (on_bar bar s).1),
  subst (λ e. BarSpends k e bar s) h.0 (on_bar-spends k bar s),
  feed-spends k d bars (on_bar bar s).1 h.1,
)

-- The bars of one day, of any symbols and in any order, and some of them refused, bring at most one
-- entry for each symbol, and none for a symbol that is long or closed on that day already.
pub one_entry_a_day :
    (k : String) (d : ℕ) (bars : List MinuteBar) (s : OrbStrategy)
    → All (IsOn d) bars
    → (entries_of k (feed bars s) ≤ 1)
      × ((in_session d (state_of s k)).position_state ≢ flat → entries_of k (feed bars s) ≡ 0)
one_entry_a_day k d bars s h = (
  omega (arith, feed-spends k d bars s h),
  λ busy. spent (in_session d (state_of s k)).position_state busy (feed-spends k d bars s h),
)
  where
    spent : {n : ℕ} (p : PositionState) → p ≢ flat → n + used_state p ≤ 1 → n ≡ 0
    spent flat b h = absurd (b refl)
    spent long b h = omega arith
    spent closed b h = omega arith
