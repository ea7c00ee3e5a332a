-- ===== src/Orb/Cases.antt =====
-- The three ways in which `ORBStrategy.on_bar` ends.
use korean_stock_trading_sys.Common.{ℕ, ◌≡◌, ◌≢◌, inl, inr, some, List, String, arith, Bool-cases}
use korean_stock_trading_sys.Common.Dict.{get-put_self, get-put_ne}
use korean_stock_trading_sys.Common.Exec.{Result, err}
use korean_stock_trading_sys.Symbol.{line_match}
use korean_stock_trading_sys.Clock.{is_naive}
use korean_stock_trading_sys.Signal.{Signal, MinuteBar}
use korean_stock_trading_sys.Orb.{
  OrbError, StrategyConfig, SymbolState, OrbStrategy, state_of, store, in_session, is_reversed,
  accumulate_or, Machine, enter_long, lines, check_exit, seek_entry, dispatch_position,
  dispatch_bar, observed, on_bar, naive_ts, bad_symbol, time_reversed,
}

-- The state in which the bar is read.
abbrev pub opened : MinuteBar → OrbStrategy → SymbolState
opened bar s = in_session bar.bar_time.date (state_of s bar.symbol)

-- The machine's step on it.
abbrev pub read : MinuteBar → OrbStrategy → Machine
read bar s = dispatch_bar s.config bar (observed bar (opened bar s))

abbrev pub put_back :
    MinuteBar → OrbStrategy → Machine → Result OrbError (List Signal) × OrbStrategy
put_back bar s (r, st) = (r, store s bar.symbol st)

-- Refused input changes nothing, a reversed bar leaves the opened state, any other is read.
pub on_bar_cases {ℓ} :
    (bar : MinuteBar) (s : OrbStrategy) (P : Result OrbError (List Signal) × OrbStrategy → Type ℓ)
    → ((e : OrbError) → P (err e, s))
    → P (err time_reversed, store s bar.symbol (opened bar s))
    → P (put_back bar s (read bar s))
    → P (on_bar bar s)
unfolding on_bar
on_bar_cases bar s P refused reversed done = elim (Bool-cases (line_match bar.symbol)) [
  | inr bad ↦ rw (bad, on_bar) (refused bad_symbol)
  | inl good ↦ elim (Bool-cases (is_naive bar.bar_time)) [
    | inl naive ↦ rw (good, on_bar) (rw (naive, on_bar) (refused naive_ts))
    | inr aware ↦ elim (Bool-cases (is_reversed (opened bar s) bar)) [
      | inl back ↦ rw (good, on_bar) (rw (aware, on_bar) (rw (back, on_bar) reversed))
      | inr on ↦ rw (good, on_bar) (rw (aware, on_bar) (rw (on, on_bar) done))
    ]
  ]
]

pub state_of-store_self :
    (s : OrbStrategy) (k : String) (st : SymbolState) → state_of (store s k st) k ≡ st
state_of-store_self s k st = rw (get-put_self k st s.states, state_of)

pub state_of-store_ne :
    (s : OrbStrategy) (k j : String) (st : SymbolState)
    → j ≢ k
    → state_of (store s k st) j ≡ state_of s j
state_of-store_ne s k j st h = rw (get-put_ne k j st s.states h, state_of)

pub in_session-date : (d : ℕ) (st : SymbolState) → (in_session d st).session_date ≡ some d
unfolding in_session
in_session-date d st = ground arith

pub in_session_same : (d : ℕ) (st : SymbolState) → st.session_date ≡ some d → in_session d st ≡ st
unfolding in_session
in_session_same d st h = ground arith

pub dispatch_bar-session :
    (c : StrategyConfig) (bar : MinuteBar) (st : SymbolState)
    → (dispatch_bar c bar st).1.session_date ≡ st.session_date
unfolding dispatch_bar dispatch_position seek_entry enter_long check_exit lines accumulate_or
dispatch_bar-session c bar st = ground arith
