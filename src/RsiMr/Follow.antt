-- ===== src/RsiMr/Follow.antt =====
-- backtest/rsi_mr.py: the simulation beside the strategy that it runs. Its lots are positions that the
-- strategy holds too, and each has a last close.
use korean_stock_trading_sys.Common.{
  ℕ, ◌≡◌, inl, inr, ap, is_some, true, Bool-cases, Option-cases, some, ℤ, pos, ltb_ℤ, leb_ℤ, ◌-ℤ◌,
  ◌==◌, List, [], ◌∷◌, String, length,
}
use korean_stock_trading_sys.Common.Dict.{Dict, get, put, remove, contains, is_in, get-put_self}
use korean_stock_trading_sys.Common.Keys.{
  Unique, Unique-put, Unique-remove, get-remove_self, Within, Within-put, Within-put_right,
  Within-remove, Within-remove_both, Within-remove_right,
}
use korean_stock_trading_sys.Common.Exec.{Result, ok, err}
use korean_stock_trading_sys.Decimal.{Decimal, div, mul, add, of_nat, to_int, not_positive}
use korean_stock_trading_sys.Signal.{EntrySignal, ExitSignal, ExitReason, entry, MinuteBar}
use korean_stock_trading_sys.RsiMr.{RsiMrStrategy, stop_of, Holding, Read, on_bar, enters}
use korean_stock_trading_sys.RsiMr.Cases.{heard, Endings, on_bar_cases}
use korean_stock_trading_sys.RsiMr.Ledger.{OnOk, and_then-OnOk}
use korean_stock_trading_sys.RsiMr.Baseline.{
  BaselineConfig, BaselineError, BaselineLot, Baseline, lot_cost, holds, bought_lot, buy_lot,
  attempt_buy, sell_one, share, held_by, buy_one, process_signals, buy_all, sell_all,
}
use korean_stock_trading_sys.RsiMr.Simulation.{
  open_session, note_close, noted, answered, take_bar, take_bars,
}

-- A purchase changes the cash and at most adds the lot of its symbol.
module _ (c : BaselineConfig) (s : EntrySignal) (b : Baseline) (Q : Baseline → Type 0)
    (unbought : (cash : ℤ) → Q (record b { cash = cash }))
    (bought : (cash : ℤ) (lot : BaselineLot)
      → Q (record b { cash = cash; lots = put s.symbol lot b.lots })) where
  holds_cases : (lot : BaselineLot) → Q (holds s b (buy_lot b.cash lot))
  unfolding buy_lot
  holds_cases lot = elim (Bool-cases (leb_ℤ lot.qty (pos 0))) [
    | inl nothing ↦ rw (nothing, buy_lot) (unbought b.cash)
    | inr some_qty ↦ elim (Bool-cases (ltb_ℤ b.cash (lot_cost lot))) [
      | inl dear ↦ rw (some_qty, buy_lot) (rw dear (unbought b.cash))
      | inr paid ↦ rw (some_qty, buy_lot) (rw paid (bought (b.cash -ℤ lot_cost lot) lot))
    ]
  ]

  attempt_buy_cases : (alloc : Decimal) → OnOk Q (held_by s b (attempt_buy c b.cash s alloc))
  unfolding attempt_buy
  attempt_buy_cases alloc =
      let fill = mul s.price (add (of_nat 1) c.slippage_rate) in
      elim (Bool-cases (not_positive fill)) [
        | inl bad ↦ rw (bad, attempt_buy) (unbought b.cash)
        | inr good ↦ elim (Option-cases (div alloc fill)) [
          | inl e ↦ rw (good, attempt_buy) (rw e tt)
          | inr (q, e) ↦
              rw (good, attempt_buy) (rw e (holds_cases (bought_lot c s fill (to_int q))))
        ]
      ]

  pub buy_one_cases : OnOk Q (buy_one c s b)
  unfolding buy_one
  buy_one_cases = elim (Bool-cases (contains s.symbol b.lots)) [
    | inl held ↦ rw (held, buy_one) (unbought b.cash)
    | inr new ↦ elim (Bool-cases (leb_ℤ (c.rsi.max_positions -ℤ pos (length b.lots)) (pos 0))) [
      | inl full ↦ rw (new, buy_one) (rw full (unbought b.cash))
      | inr free ↦ elim (Option-cases (share c b)) [
        | inl e ↦ rw (new, buy_one) (rw free (rw e tt))
        | inr (alloc, e) ↦ rw (new, buy_one) (rw free (rw e (attempt_buy_cases alloc)))
      ]
    ]
  ]

-- One lot a symbol; the strategy reads symbols of the universe only, and has a holding for each lot;
-- each lot has a last close.
pub record Follows (universe : List String) (s : RsiMrStrategy) (lots : Dict BaselineLot)
    (latest : Dict Decimal) : Type 0 where
  pub unique : Unique lots
  pub followed : Within lots s.holdings
  pub priced : Within lots latest
  pub known : (k : String) → contains k s.closes ≡ true → is_in k universe ≡ true

module _ (c : BaselineConfig) where
  abbrev pub Keeps : Baseline → Type 0
  Keeps b = Follows c.rsi.universe b.strategy b.lots b.latest_close

  open_session-Keeps : (d : ℕ) (b : Baseline) → Keeps b → Keeps (open_session d b)
  unfolding open_session
  open_session-Keeps d b v = elim (Option-cases b.last_session_date) [
    | inl first ↦ rw (first, open_session) v
    | inr (e, h) ↦ elim (Bool-cases (e == d)) [
      | inl same ↦ rw (h, open_session) (rw same v)
      | inr other ↦ rw (h, open_session) (rw other v)
    ]
  ]

  note_close-Keeps : (bar : MinuteBar) (b : Baseline) → Keeps b → Keeps (note_close c bar b)
  unfolding note_close
  note_close-Keeps bar b v = elim (Bool-cases (is_in bar.symbol c.rsi.universe)) [
    | inr other ↦ rw (other, note_close) v
    | inl own ↦
        rw (own, note_close)
          (record {
            unique = v.unique;
            followed = v.followed;
            priced = Within-put_right bar.symbol bar.close b.lots b.latest_close v.priced;
            known = v.known;
          })
  ]

  note_close-contains :
      (bar : MinuteBar) (b : Baseline)
      → is_in bar.symbol c.rsi.universe ≡ true
      → contains bar.symbol (note_close c bar b).latest_close ≡ true
  unfolding note_close
  note_close-contains bar b own =
      rw (own, note_close) (ap is_some (get-put_self bar.symbol bar.close b.latest_close))

  noted-OnOk :
      (bar : MinuteBar) (r : Result BaselineError Baseline)
      → OnOk Keeps r
      → OnOk Keeps (noted bar r)
  noted-OnOk bar (ok b) v = v
  noted-OnOk bar (err e) v = tt

  -- A sale behind the end of its holding.
  sell_one-Keeps :
      (s : ExitSignal) (x : Baseline) (holdings : Dict Holding)
      → Follows c.rsi.universe (record x.strategy { holdings = holdings }) x.lots x.latest_close
      → Keeps (
          sell_one c s
            (record x { strategy = record x.strategy { holdings = remove s.symbol holdings } }))
  unfolding sell_one
  sell_one-Keeps s x holdings v = elim (Option-cases (get s.symbol x.lots)) [
    | inl free ↦
        rw (free, sell_one)
          (record {
            unique = v.unique;
            followed = Within-remove_right s.symbol x.lots holdings free v.followed;
            priced = v.priced;
            known = v.known;
          })
    | inr (lot, held) ↦
        rw (held, sell_one)
          (record {
            unique = Unique-remove s.symbol x.lots v.unique;
            followed =
                Within-remove_both s.symbol x.lots holdings
                  (get-remove_self s.symbol x.lots v.unique) v.followed;
            priced = Within-remove s.symbol x.lots x.latest_close v.priced;
            known = v.known;
          })
  ]

  -- A purchase behind the begin of its holding.
  buy_one-Keeps :
      (s : EntrySignal) (x : Baseline)
      → contains s.symbol x.strategy.holdings ≡ true
      → contains s.symbol x.latest_close ≡ true
      → Keeps x
      → OnOk Keeps (buy_one c s x)
  buy_one-Keeps s x held close v =
      buy_one_cases c s x Keeps (λ cash. v)
        λ cash lot. record {
          unique = Unique-put s.symbol lot x.lots v.unique;
          followed = Within-put s.symbol lot x.lots x.strategy.holdings held v.followed;
          priced = Within-put s.symbol lot x.lots x.latest_close close v.priced;
          known = v.known;
        }

  process_entry-Keeps :
      (s : EntrySignal) (x : Baseline)
      → OnOk Keeps (buy_one c s x)
      → OnOk Keeps (process_signals c (entry s ∷ []) x)
  unfolding process_signals buy_all sell_all
  process_entry-Keeps s x h = and_then-OnOk Keeps (buy_all c []) (buy_one c s x) (λ b v. v) h

  -- The strategy's answer to a bar whose close is noted.
  module _ (bar : MinuteBar) (b : Baseline) (v : Keeps b)
      (noted_close : is_in bar.symbol c.rsi.universe ≡ true
        → contains bar.symbol b.latest_close ≡ true) where
    abbrev Fine : Read → Type 0
    Fine r = OnOk Keeps (answered c bar b r)

    heard_known :
        (buf : List Decimal)
        → get bar.symbol b.strategy.closes ≡ some buf
        → (k : String) → contains k (heard bar buf b.strategy).closes ≡ true
        → is_in k c.rsi.universe ≡ true
    heard_known buf own k h = v.known k (
        Within-put bar.symbol _ b.strategy.closes b.strategy.closes (ap is_some own) (λ j x. x) k h)

    -- Where only the buffers and the times of the strategy change.
    silent_Follows :
        (buf : List Decimal)
        → get bar.symbol b.strategy.closes ≡ some buf
        → Follows c.rsi.universe (heard bar buf b.strategy) b.lots b.latest_close
    silent_Follows buf own = record {
      unique = v.unique;
      followed = v.followed;
      priced = v.priced;
      known = heard_known buf own;
    }

    entered_Follows :
        (buf : List Decimal) (h : Holding)
        → get bar.symbol b.strategy.closes ≡ some buf
        → Follows c.rsi.universe
            (record (heard bar buf b.strategy) { holdings = put bar.symbol h b.strategy.holdings })
            b.lots
            b.latest_close
    entered_Follows buf h own = record {
      unique = v.unique;
      followed = Within-put_right bar.symbol h b.lots b.strategy.holdings v.followed;
      priced = v.priced;
      known = heard_known buf own;
    }

    endings :
        (buf : List Decimal)
        → get bar.symbol b.strategy.closes ≡ some buf
        → Endings bar b.strategy Fine buf
    unfolding process_signals buy_all sell_all
    endings buf own =
        let own_close = noted_close (v.known bar.symbol (ap is_some own)) in
        record {
          broken = λ e h. tt;
          quiet = silent_Follows buf own;
          left = λ h price reason held.
              sell_one-Keeps (exit_of price reason)
                (record b {
                  strategy = record (heard bar buf b.strategy) {
                    last_exit_date = put bar.symbol bar.bar_time.date b.strategy.last_exit_date;
                  };
                })
                b.strategy.holdings
                (record {
                  unique = v.unique;
                  followed = v.followed;
                  priced = v.priced;
                  known = heard_known buf own;
                });
          entered = λ new free late.
              let x = record b { strategy = (enters bar (heard bar buf b.strategy)).1 } in
              noted-OnOk bar
                (process_signals c (entry (entry_of (heard bar buf b.strategy)) ∷ []) x)
                (process_entry-Keeps _ x (
                  buy_one-Keeps (entry_of (heard bar buf b.strategy)) x
                    (ap is_some (get-put_self bar.symbol _ b.strategy.holdings)) own_close
                    (entered_Follows buf _ own)));
        }
      where
        exit_of : Decimal → ExitReason → ExitSignal
        exit_of price reason = record {
          symbol = bar.symbol;
          price = price;
          ts = bar.bar_time;
          reason = reason;
        }

        entry_of : RsiMrStrategy → EntrySignal
        entry_of s = record {
          symbol = bar.symbol;
          price = bar.close;
          ts = bar.bar_time;
          stop_price = stop_of s.config bar;
          take_price = of_nat 0;
        }

    answered-Keeps : Fine (on_bar bar b.strategy)
    unfolding process_signals buy_all sell_all
    answered-Keeps = on_bar_cases bar b.strategy Fine (λ e. tt) v endings

  take_bar-Keeps : (bar : MinuteBar) (b : Baseline) → Keeps b → OnOk Keeps (take_bar c bar b)
  unfolding take_bar
  take_bar-Keeps bar b v =
      let b1 = open_session bar.bar_time.date b in
      answered-Keeps bar (note_close c bar b1)
        (note_close-Keeps bar b1 (open_session-Keeps bar.bar_time.date b v))
        (note_close-contains bar b1)

  pub take_bars-Keeps :
      (bars : List MinuteBar) (b : Baseline) → Keeps b → OnOk Keeps (take_bars c bars b)
  unfolding take_bars
  take_bars-Keeps [] b v = v
  take_bars-Keeps (bar ∷ bars) b v =
      and_then-OnOk Keeps (take_bars c bars) (take_bar c bar b) (take_bars-Keeps bars)
        (take_bar-Keeps bar b v)
