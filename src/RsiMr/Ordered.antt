-- ===== src/RsiMr/Ordered.antt =====
-- strategy/rsi_mr.py: bars in order, of which the strategy refuses none.
use korean_stock_trading_sys.Common.{
  ◌≡◌, inl, inr, refl, sym, ap, subst, is_some, Bool, true, false, not, ◌&&◌, Option-cases, none,
  some, pos, ◌≤ℤ◌, arith, List, [], ◌∷◌, String,
}
use korean_stock_trading_sys.Common.Dict.{Dict, get, put, contains, is_in}
use korean_stock_trading_sys.Common.Keys.{Within, Within-put_right}
use korean_stock_trading_sys.Common.Exec.{is_ok}
use korean_stock_trading_sys.Decimal.{Decimal}
use korean_stock_trading_sys.Symbol.{line_match}
use korean_stock_trading_sys.Clock.{Datetime, is_naive, before}
use korean_stock_trading_sys.Signal.{MinuteBar}
use korean_stock_trading_sys.RsiMr.{
  RsiMrConfig, RsiMrStrategy, Read, on_bar, is_reversed, read_bar, timed, empty_buffers,
}
use korean_stock_trading_sys.RsiMr.Cases.{on_bar_heard, read_bar_cases, longer}
use korean_stock_trading_sys.RsiMr.Index.{compute_rsi-is_ok}

-- Bars of the universe with aware times, those of a symbol in the order of time; `seen` has the last
-- time of each symbol.
abbrev comes_back : Dict Datetime → MinuteBar → Bool
comes_back seen bar = elim (get bar.symbol seen) [ none ↦ false | some t ↦ before bar.bar_time t ]

unfoldable pub in_order : List String → Dict Datetime → List MinuteBar → Bool
in_order universe seen [] = true
in_order universe seen (bar ∷ bars) =
    (is_in bar.symbol universe && line_match bar.symbol)
    && (not (is_naive bar.bar_time) && not (comes_back seen bar))
    && in_order universe (put bar.symbol bar.bar_time seen) bars

-- What the strategy makes of a bar in order.
pub record Heard (bar : MinuteBar) (s : RsiMrStrategy) (r : Read) : Type 0 where
  pub fine : is_ok r.0 ≡ true
  pub configured : r.1.config ≡ s.config
  pub timed_at : r.1.last_bar_time ≡ put bar.symbol bar.bar_time s.last_bar_time
  pub buffered : Within s.closes r.1.closes

module _ (bar : MinuteBar) (s : RsiMrStrategy) (positive : pos 1 ≤ℤ s.config.rsi_period) where
  read_bar-Heard :
      (buf : List Decimal) → Heard bar s (read_bar bar (longer bar buf s) (timed bar s))
  read_bar-Heard buf =
      let more = Within-put_right bar.symbol (longer bar buf s) s.closes s.closes (λ k h. h) in
      read_bar_cases bar s (Heard bar s) buf (record {
        broken = λ e h.
            absurd (cc (sym (compute_rsi-is_ok s.config (longer bar buf s) positive), ap is_ok h));
        quiet = record { fine = refl; configured = refl; timed_at = refl; buffered = more };
        left = λ h price reason held. record {
          fine = refl;
          configured = refl;
          timed_at = refl;
          buffered = more;
        };
        entered = λ new free late. record {
          fine = refl;
          configured = refl;
          timed_at = refl;
          buffered = more;
        };
      })

  pub on_bar-Heard :
      line_match bar.symbol ≡ true
      → is_naive bar.bar_time ≡ false
      → is_reversed bar s ≡ false
      → contains bar.symbol s.closes ≡ true
      → Heard bar s (on_bar bar s)
  on_bar-Heard good aware on own = elim (Option-cases (get bar.symbol s.closes)) [
    | inl e ↦ absurd (cc (ap is_some e))
    | inr (buf, e) ↦
        subst (Heard bar s) (sym (on_bar_heard bar s buf good aware on e)) (read_bar-Heard buf)
  ]

-- A strategy of this configuration with a buffer for each symbol of the universe.
pub record Ready (c : RsiMrConfig) (s : RsiMrStrategy) : Type 0 where
  pub same_config : s.config ≡ c
  pub every : (k : String) → is_in k c.universe ≡ true → contains k s.closes ≡ true

-- The guards of a first bar.
pub record Passes (universe : List String) (seen : Dict Datetime) (bar : MinuteBar)
    (bars : List MinuteBar) : Type 0 where
  pub member : is_in bar.symbol universe ≡ true
  pub spelled : line_match bar.symbol ≡ true
  pub aware : is_naive bar.bar_time ≡ false
  pub onward : comes_back seen bar ≡ false
  pub rest : in_order universe (put bar.symbol bar.bar_time seen) bars ≡ true

pub in_order-Passes :
    (universe : List String) (seen : Dict Datetime) (bar : MinuteBar) (bars : List MinuteBar)
    → in_order universe seen (bar ∷ bars) ≡ true
    → Passes universe seen bar bars
unfolding in_order
in_order-Passes universe seen bar bars h =
    split (is_in bar.symbol universe) (line_match bar.symbol) (is_naive bar.bar_time)
      (comes_back seen bar) (in_order universe (put bar.symbol bar.bar_time seen) bars) h
      λ a b c d e. record { member = a; spelled = b; aware = c; onward = d; rest = e }
  where
    split :
        (a b c d e : Bool) {P : Type 0}
        → ((a && b) && (not c && not d) && e) ≡ true
        → (a ≡ true → b ≡ true → c ≡ false → d ≡ false → e ≡ true → P)
        → P
    split true true false false true h f = f refl refl refl refl refl
    split false b c d e h f = absurd cc
    split true false c d e h f = absurd cc
    split true true true d e h f = absurd cc
    split true true false true e h f = absurd cc
    split true true false false false h f = absurd cc

pub empty_buffers-every :
    (ks : List String) (k : String) → is_in k ks ≡ true → contains k (empty_buffers ks) ≡ true
unfolding empty_buffers get is_in
empty_buffers-every [] k h = cc
empty_buffers-every (j ∷ ks) k h = ground (arith, empty_buffers-every ks k)
