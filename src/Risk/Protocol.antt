-- ===== src/Risk/Protocol.antt =====
-- The order of calls that the engine and the executor keep: an entry is recorded for a signal that was
-- approved in the same state.
use korean_stock_trading_sys.Common.{
  ℕ, ◌≡◌, refl, sym, ap, subst, true, ℤ, pos, ◌≤ℤ◌, String, length, arith,
}
use korean_stock_trading_sys.Common.Dict.{length-put_new, length-remove}
use korean_stock_trading_sys.Common.Exec.{Result, ok, err}
use korean_stock_trading_sys.Decimal.{Decimal}
use korean_stock_trading_sys.Clock.{Datetime}
use korean_stock_trading_sys.Signal.{EntrySignal}
use korean_stock_trading_sys.Risk.{
  RiskError, RiskConfig, RiskDecision, RiskManager, new_manager, start_session, evaluate_entry,
  record_entry, record_exit,
}
use korean_stock_trading_sys.Risk.Gate.{evaluate_entry-Admits}
use korean_stock_trading_sys.Risk.Sizing.{IsConfig}
use korean_stock_trading_sys.Risk.Session.{
  Yields, begun, filled, dropped, start_session-Yields, record_entry-Yields, record_exit-Yields,
}

-- The quantity and the price of the fill are the broker's, and may differ from the approval's.
pub data Step (m : RiskManager) : RiskManager → Type 0 where
  open_day :
      {n : RiskManager} (date : ℕ) (capital : ℤ)
      → start_session date capital m ≡ (ok tt, n)
      → Step m n
  enter :
      {n : RiskManager} (s : EntrySignal) (cash : ℤ) (d : RiskDecision) (price : Decimal) (qty : ℤ)
      (ts : Datetime)
      → evaluate_entry m s cash ≡ ok d
      → d.approved ≡ true
      → record_entry s.symbol price qty ts m ≡ (ok tt, n)
      → Step m n
  leave : {n : RiskManager} (k : String) (pnl : ℤ) → record_exit k pnl m ≡ (ok tt, n) → Step m n

pub data Reach (m : RiskManager) : RiskManager → Type 0 where
  here : Reach m m
  next : {n o : RiskManager} → Reach m n → Step n o → Reach m o

-- The day's entries and the open positions are within the limits of the configuration c.
pub record Within (c : RiskConfig) (m : RiskManager) : Type 0 where
  pub same : m.config ≡ c
  pub entries : pos m.entries_today ≤ℤ c.daily_max_entries
  pub slots : pos (length m.active_positions) ≤ℤ c.max_positions

returned :
    (m m' n : RiskManager) (P : Type 0) (r : Result RiskError (Unit {0}) × RiskManager)
    → Yields m m' P r
    → r ≡ (ok tt, n)
    → P × (n ≡ m')
returned m m' n P (ok a, o) y h = (y.0, cc (h, y.1))
returned m m' n P (err e, o) y h = absurd (err_ne_ok h)
  where
    err_ne_ok :
        {e : RiskError} {o n : RiskManager}
        → ◌≡◌ {A = Result RiskError (Unit {0}) × RiskManager} (err e, o) (ok tt, n)
        → ⊥
    err_ne_ok h = cc (ap (λ (p : Result RiskError (Unit {0}) × RiskManager). p.0) h)

Step-Within : (c : RiskConfig) {m n : RiskManager} → IsConfig c → Step m n → Within c m → Within c n
Step-Within c {m} {n} hc (open_day date capital h) w =
    let (p, e) = returned m (begun date capital m) n _ _ (start_session-Yields date capital m) h in
    subst (Within c) (sym e) (record {
      same = w.same;
      entries = omega (arith, hc.entries_pos);
      slots = omega (arith, hc.positions_pos);
    })
Step-Within c {m} {n} hc (enter s cash d price qty ts hd a h) w =
    let (p, e) =
      returned m (filled s.symbol price qty ts m) n _ _
        (record_entry-Yields s.symbol price qty ts m) h in
    let admits = evaluate_entry-Admits m s cash d hd a in
    subst (Within c) (sym e) (record {
      same = w.same;
      entries = ground (arith, admits.below_cap, w.same);
      slots = ground (
        arith,
        admits.has_slot,
        w.same,
        length-put_new s.symbol
            (record { symbol = s.symbol; entry_price = price; qty = qty; entry_ts = ts })
            m.active_positions p.1,
      );
    })
Step-Within c {m} {n} hc (leave k pnl h) w =
    let (p, e) = returned m (dropped k pnl m) n _ _ (record_exit-Yields k pnl m) h in
    subst (Within c) (sym e) (record {
      same = w.same;
      entries = w.entries;
      slots = omega (arith, w.slots, length-remove k m.active_positions p);
    })

-- From a new manager with a valid configuration, whatever sessions, approved entries with any fill
-- and exits follow, the day's entries and the open positions stay within their limits.
pub Reach-Within :
    (c : RiskConfig) (m : RiskManager) → IsConfig c → Reach (new_manager c) m → Within c m
unfolding new_manager
Reach-Within c m hc here = record {
  same = refl;
  entries = omega (arith, hc.entries_pos);
  slots = omega (arith, hc.positions_pos);
}
Reach-Within c m hc (next r st) = Step-Within c hc st (Reach-Within c _ hc r)
