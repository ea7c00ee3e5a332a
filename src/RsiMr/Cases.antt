-- ===== src/RsiMr/Cases.antt =====
-- strategy/rsi_mr.py: the ways in which `RSIMRStrategy.on_bar` ends.
use korean_stock_trading_sys.Common.{
  ◌≡◌, inl, inr, true, false, Bool-cases, Option-cases, Option, none, some, pos, leb_ℤ, List, [],
  length, arith,
}
use korean_stock_trading_sys.Common.Dict.{get}
use korean_stock_trading_sys.Common.Exec.{ok, err, Result-cases}
use korean_stock_trading_sys.Decimal.{Decimal, le, lt}
use korean_stock_trading_sys.Symbol.{line_match}
use korean_stock_trading_sys.Clock.{is_naive}
use korean_stock_trading_sys.Signal.{ExitReason, stop_loss, take_profit, MinuteBar}
use korean_stock_trading_sys.RsiMr.{
  RsiError, RsiMrStrategy, Holding, Read, appended, timed, leaves, enters, left_today, seek_entry,
  seek_exit, read_bar, is_reversed, on_bar, compute_rsi, append_bounded, buffer_size, bad_symbol,
  naive_ts, time_reversed,
}

module _ {ℓ} (bar : MinuteBar) (P : Read → Type ℓ) where
  -- Where nothing is held: silence or an entry into a free place.
  seek_entry_cases :
      (rsi : Option Decimal) (s : RsiMrStrategy)
      → P (ok [], s)
      → (leb_ℤ s.config.max_positions (pos (length s.holdings)) ≡ false
          → left_today bar s ≡ false
          → P (enters bar s))
      → P (seek_entry bar rsi s)
  unfolding seek_entry
  seek_entry_cases none s quiet entered = quiet
  seek_entry_cases (some rsi) s quiet entered =
      elim (Bool-cases (le s.config.oversold_threshold rsi)) [
        | inl high ↦ rw (high, seek_entry) quiet
        | inr low ↦ elim (Bool-cases (leb_ℤ s.config.max_positions (pos (length s.holdings)))) [
          | inl full ↦ rw (low, seek_entry) (rw full quiet)
          | inr free ↦ elim (Bool-cases (left_today bar s)) [
            | inl again ↦ rw (low, seek_entry) (rw free (rw again quiet))
            | inr new ↦ rw (low, seek_entry) (rw free (rw new (entered free new)))
          ]
        ]
      ]

  seek_exit_cases :
      (rsi : Option Decimal) (s : RsiMrStrategy)
      → P (ok [], s)
      → P (leaves bar bar.close take_profit s)
      → P (seek_exit bar rsi s)
  unfolding seek_exit
  seek_exit_cases none s quiet left = quiet
  seek_exit_cases (some rsi) s quiet left =
      elim (Bool-cases (lt s.config.overbought_threshold rsi)) [
        | inl high ↦ rw high left
        | inr low ↦ rw low quiet
      ]

-- The buffer with the close of a bar.
abbrev pub longer : MinuteBar → List Decimal → RsiMrStrategy → List Decimal
longer bar buf s = append_bounded (buffer_size s.config) bar.close buf

-- The state with the bar's time and its close.
abbrev pub heard : MinuteBar → List Decimal → RsiMrStrategy → RsiMrStrategy
heard bar buf s = appended bar (longer bar buf s) (timed bar s)

module _ {ℓ} (bar : MinuteBar) (s : RsiMrStrategy) (P : Read → Type ℓ) where
  -- What a heard bar leads to: an error of the index, silence, an exit or an entry.
  pub record Endings (buf : List Decimal) : Type ℓ where
    pub broken :
        (e : RsiError)
        → compute_rsi s.config (longer bar buf s) ≡ err e
        → P (err e, heard bar buf s)
    pub quiet : P (ok [], heard bar buf s)
    pub left :
        (h : Holding) (price : Decimal) (reason : ExitReason)
        → get bar.symbol s.holdings ≡ some h
        → P (leaves bar price reason (heard bar buf s))
    pub entered :
        get bar.symbol s.holdings ≡ none
        → leb_ℤ s.config.max_positions (pos (length s.holdings)) ≡ false
        → left_today bar s ≡ false
        → P (enters bar (heard bar buf s))

  pub read_bar_cases :
      (buf : List Decimal) → Endings buf → P (read_bar bar (longer bar buf s) (timed bar s))
  unfolding read_bar
  read_bar_cases buf x =
      let rsi = compute_rsi s.config (longer bar buf s) in
      elim (Option-cases (get bar.symbol s.holdings)) [
        | inl none_held ↦ elim (Result-cases rsi) [
          | inl (e, h) ↦ rw (none_held, read_bar) (rw h (x.broken e h))
          | inr (r, h) ↦
              rw (none_held, read_bar)
                (rw h (seek_entry_cases bar P r (heard bar buf s) x.quiet (x.entered none_held)))
        ]
        | inr (hold, held) ↦ elim (Bool-cases (le bar.low hold.stop_price)) [
          | inl stop ↦ rw (held, read_bar) (rw stop (x.left hold hold.stop_price stop_loss held))
          | inr above ↦ elim (Result-cases rsi) [
            | inl (e, h) ↦ rw (held, read_bar) (rw above (rw h (x.broken e h)))
            | inr (r, h) ↦
                rw (held, read_bar)
                  (rw above (
                    rw h (
                      seek_exit_cases bar P r (heard bar buf s) x.quiet
                        (x.left hold bar.close take_profit held))))
          ]
        ]
      ]

  pub on_bar_cases :
      ((e : RsiError) → P (err e, s))
      → P (ok [], s)
      → ((buf : List Decimal) → get bar.symbol s.closes ≡ some buf → Endings buf)
      → P (on_bar bar s)
  unfolding on_bar read_bar
  on_bar_cases refused ignored heard_cases = elim (Bool-cases (line_match bar.symbol)) [
    | inr bad ↦ rw (bad, on_bar) (refused bad_symbol)
    | inl good ↦ elim (Bool-cases (is_naive bar.bar_time)) [
      | inl naive ↦ rw (good, on_bar) (rw (naive, on_bar) (refused naive_ts))
      | inr aware ↦ elim (Option-cases (get bar.symbol s.closes)) [
        | inl other ↦ rw (good, on_bar) (rw (aware, on_bar) (rw (other, on_bar) ignored))
        | inr (buf, own) ↦ elim (Bool-cases (is_reversed bar s)) [
          | inl back ↦
              rw (good, on_bar)
                (rw (aware, on_bar) (rw (own, on_bar) (rw back (refused time_reversed))))
          | inr on ↦
              let x = heard_cases buf own in
              rw (good, on_bar)
                (rw (aware, on_bar) (rw (own, on_bar) (rw on (read_bar_cases buf x))))
        ]
      ]
    ]
  ]

-- A bar of the universe that passes the guards is read.
pub on_bar_heard :
    (bar : MinuteBar) (s : RsiMrStrategy) (buf : List Decimal)
    → line_match bar.symbol ≡ true
    → is_naive bar.bar_time ≡ false
    → is_reversed bar s ≡ false
    → get bar.symbol s.closes ≡ some buf
    → on_bar bar s ≡ read_bar bar (longer bar buf s) (timed bar s)
unfolding on_bar
on_bar_heard bar s buf good aware on own = ground arith
