-- ===== src/RsiMr/Plan.antt =====
-- strategy/rsi_mr.py: what the signals of the strategy add up to over many bars.
use mathlib.Core.Option.{none, some}
use korean_stock_trading_sys.Common.{
  ◌≡◌, ◌≢◌, refl, ap, ◌∙◌, subst, is_some, true, false, ℤ, pos, ◌≤ℤ◌, leb_ℤ, leb_false→lt, ◌+◌, ℕ,
  List, [], ◌∷◌, ◌++◌, length, arith,
}
use korean_stock_trading_sys.Common.Dict.{Dict, get, put, remove, contains}
use korean_stock_trading_sys.Common.Keys.{keys, length-keys, contains-keys, keys-put, keys-remove}
use korean_stock_trading_sys.Common.Exec.{Result, ok, err}
use korean_stock_trading_sys.Signal.{Signal, entry, exit, MinuteBar}
use korean_stock_trading_sys.RsiMr.{
  RsiMrConfig, RsiMrStrategy, RsiError, Holding, on_bar, new_strategy, left_today, enters, leaves,
}
use korean_stock_trading_sys.RsiMr.Cases.{on_bar_cases, heard}

abbrev pub given : Result RsiError (List Signal) → List Signal
given (ok ss) = ss
given (err e) = []

-- The signals of a sequence of bars; a bar that raises gives none.
unfoldable pub signals : List MinuteBar → RsiMrStrategy → List Signal
signals [] s = []
signals (bar ∷ bars) s = let r = on_bar bar s in given r.0 ++ signals bars r.1

-- Signals that can be followed with a number of places, from open positions and the last day on which
-- each symbol was left: an entry is for a symbol that is not open, has a place and comes on another
-- day than the last exit of its symbol; an exit is for an open symbol.
abbrev pub IsPlan : ℤ → Dict (Unit {0}) → Dict ℕ → List Signal → Type 0
IsPlan places held left [] = Unit
IsPlan places held left (entry s ∷ ss) =
    (contains s.symbol held ≡ false)
    × (pos (length held + 1) ≤ℤ places)
    × (get s.symbol left ≢ some s.ts.date)
    × IsPlan places (put s.symbol tt held) left ss
IsPlan places held left (exit s ∷ ss) =
    (contains s.symbol held ≡ true)
    × IsPlan places (remove s.symbol held) (put s.symbol s.ts.date left) ss

module _ (places : ℤ) where
  abbrev Goes : RsiMrStrategy → List Signal → Type 0
  Goes s ss = IsPlan places (keys s.holdings) s.last_exit_date ss

  signals-IsPlan :
      (bars : List MinuteBar) (s : RsiMrStrategy)
      → s.config.max_positions ≡ places
      → Goes s (signals bars s)
  unfolding signals
  signals-IsPlan [] s h = tt
  signals-IsPlan (bar ∷ bars) s h =
      on_bar_cases bar s (λ r. Goes s (given r.0 ++ signals bars r.1))
        (λ e. signals-IsPlan bars s h) (signals-IsPlan bars s h)
        λ buf own. record {
          broken = λ e b. signals-IsPlan bars (heard bar buf s) h;
          quiet = signals-IsPlan bars (heard bar buf s) h;
          left = λ hold price reason held.
              left_plan hold held _
                (signals-IsPlan bars (leaves bar price reason (heard bar buf s)).1 h);
          entered = λ new free late.
              entered_plan new free late _ _
                (signals-IsPlan bars (enters bar (heard bar buf s)).1 h);
        }
    where
      left_plan :
          (hold : Holding)
          → get bar.symbol s.holdings ≡ some hold
          → (rest : List Signal)
          → IsPlan places
              (keys (remove bar.symbol s.holdings))
              (put bar.symbol bar.bar_time.date s.last_exit_date)
              rest
          → (contains bar.symbol (keys s.holdings) ≡ true)
            × IsPlan places
                (remove bar.symbol (keys s.holdings))
                (put bar.symbol bar.bar_time.date s.last_exit_date)
                rest
      left_plan hold held rest p = (
        contains-keys bar.symbol s.holdings ∙ ap is_some held,
        subst (λ o. IsPlan places o (put bar.symbol bar.bar_time.date s.last_exit_date) rest)
            (keys-remove bar.symbol s.holdings) p,
      )

      entered_plan :
          get bar.symbol s.holdings ≡ none
          → leb_ℤ s.config.max_positions (pos (length s.holdings)) ≡ false
          → left_today bar s ≡ false
          → (hold : Holding) (rest : List Signal)
          → IsPlan places (keys (put bar.symbol hold s.holdings)) s.last_exit_date rest
          → (contains bar.symbol (keys s.holdings) ≡ false)
            × (pos (length (keys s.holdings) + 1) ≤ℤ places)
            × (get bar.symbol s.last_exit_date ≢ some bar.bar_time.date)
            × IsPlan places (put bar.symbol tt (keys s.holdings)) s.last_exit_date rest
      entered_plan new free late hold rest p = (
        contains-keys bar.symbol s.holdings ∙ ap is_some new,
        subst (λ x. pos (length (keys s.holdings) + 1) ≤ℤ x) h
            (omega (arith, leb_false→lt _ _ free, length-keys s.holdings)),
        λ today. ground (arith, late, today),
        subst (λ o. IsPlan places o s.last_exit_date rest) (keys-put bar.symbol hold s.holdings) p,
      )

-- Whatever the bars: the signals of a fresh strategy are a plan for its `max_positions`.
pub fresh-IsPlan :
    (c : RsiMrConfig) (bars : List MinuteBar)
    → IsPlan c.max_positions [] [] (signals bars (new_strategy c))
fresh-IsPlan c bars = signals-IsPlan c.max_positions bars (new_strategy c) refl
