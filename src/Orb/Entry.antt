-- ===== src/Orb/Entry.antt =====
-- When a bar opens a position, and at which line a bar closes one.
use korean_stock_trading_sys.Common.{
  ℕ, ◌≤◌, ◌<◌, ◌≡◌, inl, inr, refl, sym, subst, true, false, Option, some, List, [], ◌∷◌, ltb, leb,
  arith, Bool-cases, Option-cases,
}
use korean_stock_trading_sys.Common.Exec.{Result, ok}
use korean_stock_trading_sys.Decimal.{Decimal, lt, le}
use korean_stock_trading_sys.Symbol.{line_match}
use korean_stock_trading_sys.Clock.{is_naive}
use korean_stock_trading_sys.Signal.{
  EntrySignal, Signal, entry, exit, ExitReason, stop_loss, take_profit, MinuteBar,
}
use korean_stock_trading_sys.Orb.{
  OrbError, StrategyConfig, check_config, PositionState, flat, long, closed, SymbolState,
  OrbStrategy, state_of, is_reversed, stop_line, take_line, Machine, enter_long, lines, check_exit,
  seek_entry, dispatch_position, dispatch_bar, observed, on_bar,
}
use korean_stock_trading_sys.Decimal.Order.{IsPos, IsRate, IsShort, lt-raised, lowered-lt}
use korean_stock_trading_sys.Orb.Cases.{opened, read, put_back, on_bar_cases, state_of-store_self}
use korean_stock_trading_sys.Orb.Day.{signals_of}

-- A close above the opening range, behind the range and before the forced close, while flat.
pub record Breakout (c : StrategyConfig) (bar : MinuteBar) (p : PositionState)
    (or_high : Option Decimal) : Type 0 where
  pub is_flat : p ≡ flat
  pub behind_range : c.or_end ≤ bar.bar_time.time
  pub before_close : bar.bar_time.time < c.force_close_at
  pub high : Decimal
  pub range : or_high ≡ some high
  pub above : lt high bar.close ≡ true

abbrev pub entry_signal : StrategyConfig → MinuteBar → EntrySignal
entry_signal c bar = record {
  symbol = bar.symbol;
  price = bar.close;
  ts = bar.bar_time;
  stop_price = stop_line c bar.close;
  take_price = take_line c bar.close;
}

-- An entry among the signals of a machine's step is the signal of a breakout.
abbrev pub EntersBy : StrategyConfig → MinuteBar → SymbolState → List Signal → Type 0
EntersBy c bar st (entry e ∷ sigs) =
    Breakout c bar st.position_state st.or_high × (e ≡ entry_signal c bar) × (sigs ≡ [])
EntersBy c bar st (exit e ∷ sigs) = sigs ≡ []
EntersBy c bar st [] = Unit

seek_entry-EntersBy :
    (c : StrategyConfig) (bar : MinuteBar) (st : SymbolState)
    → st.position_state ≡ flat
    → c.or_end ≤ bar.bar_time.time
    → EntersBy c bar st (signals_of (seek_entry c bar st).0)
unfolding seek_entry enter_long
seek_entry-EntersBy c bar st e h = elim (Bool-cases (leb c.force_close_at bar.bar_time.time)) [
  | inl late ↦ rw (late, seek_entry) tt
  | inr soon ↦ elim (Option-cases st.or_high) [
    | inl none_high ↦ rw (soon, seek_entry) (rw (none_high, seek_entry) tt)
    | inr (high, some_high) ↦ elim (Bool-cases (lt high bar.close)) [
      | inr below ↦
          let stays : seek_entry c bar st ≡ (ok [], st) = ground arith in
          subst (λ (m : Machine). EntersBy c bar st (signals_of m.0)) (sym stays) tt
      | inl above ↦
          let opens : seek_entry c bar st ≡ enter_long c bar st = ground arith in
          subst (λ (m : Machine). EntersBy c bar st (signals_of m.0)) (sym opens)
            (
              record {
                is_flat = e;
                behind_range = h;
                before_close = ground arith;
                high = high;
                range = some_high;
                above = above;
              },
              refl,
              refl,
            )
    ]
  ]
]

check_exit-EntersBy :
    (c : StrategyConfig) (bar : MinuteBar) (st old : SymbolState)
    → EntersBy c bar old (signals_of (check_exit bar st).0)
unfolding check_exit lines
check_exit-EntersBy c bar st old = ground arith

dispatch_bar-EntersBy :
    (c : StrategyConfig) (bar : MinuteBar) (st : SymbolState)
    → EntersBy c bar st (signals_of (dispatch_bar c bar st).0)
unfolding dispatch_bar
dispatch_bar-EntersBy c bar st = elim (Bool-cases (ltb bar.bar_time.time c.or_start)) [
  | inl early ↦ rw (early, dispatch_bar) tt
  | inr e ↦ elim (Bool-cases (ltb bar.bar_time.time c.or_end)) [
    | inl opening ↦ rw (e, dispatch_bar) (rw (opening, dispatch_bar) tt)
    | inr e' ↦
        rw (e, dispatch_bar)
          (rw (e', dispatch_bar) (behind st.position_state refl (not_below _ _ e')))
  ]
]
  where
    not_below : (a b : ℕ) → ltb a b ≡ false → b ≤ a
    not_below a b h = ground arith

    behind :
        (p : PositionState)
        → st.position_state ≡ p
        → c.or_end ≤ bar.bar_time.time
        → EntersBy c bar st
            (signals_of (dispatch_position c bar p (record st { or_confirmed = true })).0)
    behind flat e h = unfold dispatch_position in seek_entry-EntersBy c bar _ e h
    behind long e h = unfold dispatch_position in check_exit-EntersBy c bar _ st
    behind closed e h = unfold dispatch_position in tt

-- Whatever the bar and the state, an entry among the signals of `on_bar` is one of a breakout, it is
-- the only signal, and its price, time and lines are those of the bar and the configuration.
pub on_bar-EntersBy :
    (bar : MinuteBar) (s : OrbStrategy)
    → EntersBy s.config bar (opened bar s) (signals_of (on_bar bar s).0)
on_bar-EntersBy bar s =
    on_bar_cases bar s (λ o. EntersBy s.config bar (opened bar s) (signals_of o.0)) (λ e. tt) tt
      (dispatch_bar-EntersBy s.config bar (observed bar (opened bar s)))

-- What `__post_init__` of the configuration lets through.
pub record IsConfig (c : StrategyConfig) : Type 0 where
  pub stop_pos : IsPos c.stop_loss_pct
  pub take_pos : IsPos c.take_profit_pct
  pub opening : c.or_start < c.or_end
  pub closing : c.or_end < c.force_close_at

pub check_config-IsConfig :
    (c : StrategyConfig)
    → ((d : StrategyConfig) → check_config c ≡ ok d → IsConfig c × (d ≡ c))
      × (IsConfig c → check_config c ≡ ok c)
unfolding check_config
check_config-IsConfig c = ((λ d h. ground arith), (λ h. ground arith))

dispatch_bar-opens :
    (c : StrategyConfig) (bar : MinuteBar) (st : SymbolState)
    → IsConfig c
    → Breakout c bar st.position_state st.or_high
    → dispatch_bar c bar st ≡ enter_long c bar (record st { or_confirmed = true })
unfolding dispatch_bar dispatch_position seek_entry
dispatch_bar-opens c bar st hc b = ground arith

-- Under a valid configuration with a stop of at most 100%, a breakout bar that the strategy reads,
-- with a positive price and products of at most 28 digits, brings exactly the entry signal and
-- leaves its symbol long with the lines of that signal, which lie strictly on either side of the
-- price.
pub Breakout-enters :
    (bar : MinuteBar) (s : OrbStrategy)
    → IsConfig s.config
    → line_match bar.symbol ≡ true
    → is_naive bar.bar_time ≡ false
    → is_reversed (opened bar s) bar ≡ false
    → Breakout s.config bar (opened bar s).position_state (opened bar s).or_high
    → IsPos bar.close
    → IsRate s.config.stop_loss_pct
    → IsShort bar.close s.config.stop_loss_pct
    → IsShort bar.close s.config.take_profit_pct
    → let e = entry_signal s.config bar in
      ((on_bar bar s).0 ≡ ok (entry e ∷ []))
      × ((state_of (on_bar bar s).1 bar.symbol).position_state ≡ long)
      × ((state_of (on_bar bar s).1 bar.symbol).stop_price ≡ some e.stop_price)
      × ((state_of (on_bar bar s).1 bar.symbol).take_price ≡ some e.take_price)
      × (lt e.stop_price e.price ≡ true)
      × (lt e.price e.take_price ≡ true)
unfolding on_bar enter_long
Breakout-enters bar s hc good aware on b hp rate short short' =
    let opens = dispatch_bar-opens s.config bar (observed bar (opened bar s)) hc b in
    rw (good, on_bar)
      (rw (aware, on_bar)
        (rw (on, on_bar)
          (rw opens (
            rw (state_of-store_self s bar.symbol) (
              refl,
              refl,
              refl,
              refl,
              lowered-lt bar.close s.config.stop_loss_pct short hp hc.stop_pos rate,
              lt-raised bar.close s.config.take_profit_pct short' hp hc.take_pos,
            )))))

-- The exits of a long position.
abbrev pub exit_signal : MinuteBar → Decimal → ExitReason → Signal
exit_signal bar price reason =
    exit (record { symbol = bar.symbol; price = price; ts = bar.bar_time; reason = reason })

on_bar-read :
    (bar : MinuteBar) (s : OrbStrategy)
    → line_match bar.symbol ≡ true
    → is_naive bar.bar_time ≡ false
    → is_reversed (opened bar s) bar ≡ false
    → on_bar bar s ≡ put_back bar s (read bar s)
unfolding on_bar
on_bar-read bar s good aware on = rw (good, on_bar) (rw (aware, on_bar) (rw (on, on_bar)))

abbrev pub Exits :
    MinuteBar → Decimal → Decimal → Result OrbError (List Signal) → PositionState → Type 0
Exits bar stop take r p =
    (le bar.low stop ≡ true → (r ≡ ok (exit_signal bar stop stop_loss ∷ [])) × (p ≡ closed))
    × (le bar.low stop ≡ false
        → le take bar.high ≡ true
        → (r ≡ ok (exit_signal bar take take_profit ∷ [])) × (p ≡ closed))
    × (le bar.low stop ≡ false → le take bar.high ≡ false → (r ≡ ok []) × (p ≡ long))

dispatch_bar-Exits :
    (c : StrategyConfig) (bar : MinuteBar) (st : SymbolState) (stop take : Decimal)
    → IsConfig c
    → st.position_state ≡ long
    → st.stop_price ≡ some stop
    → st.take_price ≡ some take
    → c.or_end ≤ bar.bar_time.time
    → Exits bar stop take (dispatch_bar c bar st).0 (dispatch_bar c bar st).1.position_state
unfolding dispatch_bar dispatch_position check_exit lines
dispatch_bar-Exits c bar st stop take hc is_lg hs ht late = (
  (λ low. (ground arith, ground arith)),
  (λ low high. (ground arith, ground arith)),
  (λ low high. (ground arith, ground arith)),
)

-- Under a valid configuration, at a bar behind the opening range that the strategy reads, a long
-- position leaves at its stop line if the low touches it, even where the same bar touches the
-- other line too, else at the other line if the high touches that, else it stays. It is closed
-- exactly if it left.
pub long-Exits :
    (bar : MinuteBar) (s : OrbStrategy) (stop take : Decimal)
    → IsConfig s.config
    → line_match bar.symbol ≡ true
    → is_naive bar.bar_time ≡ false
    → is_reversed (opened bar s) bar ≡ false
    → (opened bar s).position_state ≡ long
    → (opened bar s).stop_price ≡ some stop
    → (opened bar s).take_price ≡ some take
    → s.config.or_end ≤ bar.bar_time.time
    → Exits bar stop take (on_bar bar s).0 (state_of (on_bar bar s).1 bar.symbol).position_state
long-Exits bar s stop take hc good aware on is_lg hs ht late =
    rw (on_bar-read bar s good aware on, state_of-store_self s bar.symbol (read bar s).1)
      (dispatch_bar-Exits s.config bar (observed bar (opened bar s)) stop take hc is_lg hs ht late)
