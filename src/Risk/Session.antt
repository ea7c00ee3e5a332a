-- ===== src/Risk/Session.antt =====
-- The state that `RiskManager` keeps: what every method preserves, and what a raise leaves alone.
use korean_stock_trading_sys.Common.{
  ℕ, ◌+◌, ◌≤◌, ◌≡◌, inl, inr, refl, sym, subst, true, false, ◌||◌, ℤ, pos, leb_ℤ, ◌≤ℤ◌, ◌+ℤ◌, none,
  some, List, [], ◌∷◌, String, length, All, arith, Option-cases,
}
use korean_stock_trading_sys.Common.Dict.{
  Dict, get, contains, put, remove, length-put_new, length-remove,
}
use korean_stock_trading_sys.Common.Exec.{Result-cases, Result, ok, err}
use korean_stock_trading_sys.Decimal.{Decimal}
use korean_stock_trading_sys.Symbol.{full_match}
use korean_stock_trading_sys.Clock.{Datetime}
use korean_stock_trading_sys.Risk.{
  RiskError, PositionRecord, RiskManager, start_session, halt_threshold_krw, collect, restored,
  restore_session, record_entry, record_exit,
}
use text.Mathlib.TextEquality.{eq_iff}

-- Held positions stand under their own symbols, which are six digits, and each of them was counted
-- as an entry of the day.
abbrev pub IsPosition : String × PositionRecord → Type 0
IsPosition (k, p) = (p.symbol ≡ k) × (full_match k ≡ true)

pub record IsValid (m : RiskManager) : Type 0 where
  pub counted : length m.active_positions ≤ m.entries_today
  pub positions : All IsPosition m.active_positions

All-put :
    (k : String) (p : PositionRecord) (d : Dict PositionRecord)
    → IsPosition (k, p)
    → All IsPosition d
    → All IsPosition (put k p d)
unfolding put
All-put k p [] hp h = (hp, tt)
All-put k p ((j, w) ∷ d) hp h = ground (arith, eq_iff j k, All-put k p d hp h.1)

All-remove : (k : String) (d : Dict PositionRecord) → All IsPosition d → All IsPosition (remove k d)
unfolding remove
All-remove k [] h = tt
All-remove k ((j, w) ∷ d) h = ground (arith, All-remove k d h.1)

-- A call that began at m: after a raise the manager is m itself, after a return it has become m'.
abbrev pub Yields :
    RiskManager → RiskManager → Type 0 → Result RiskError (Unit {0}) × RiskManager → Type 0
Yields m m' P (ok _, n) = P × (n ≡ m')
Yields m m' P (err _, n) = n ≡ m

abbrev pub begun : ℕ → ℤ → RiskManager → RiskManager
begun date capital m = record m {
  session_date = some date;
  starting_capital_krw = some capital;
  daily_realized_pnl_krw = pos 0;
  entries_today = 0;
  active_positions = [];
  halt_logged = false;
}

pub start_session-Yields :
    (date : ℕ) (capital : ℤ) (m : RiskManager)
    → Yields m (begun date capital m) (pos 1 ≤ℤ capital) (start_session date capital m)
unfolding start_session
start_session-Yields date capital m = ground arith

abbrev pub filled : String → Decimal → ℤ → Datetime → RiskManager → RiskManager
filled k price qty ts m = record m {
  active_positions =
      put k (record { symbol = k; entry_price = price; qty = qty; entry_ts = ts })
        m.active_positions;
  entries_today = m.entries_today + 1;
}

-- `record_entry` returns only for six digits that are not held, with positive quantity and price.
pub record_entry-Yields :
    (k : String) (price : Decimal) (qty : ℤ) (ts : Datetime) (m : RiskManager)
    → Yields m
        (filled k price qty ts m)
        ((full_match k ≡ true)
          × (get k m.active_positions ≡ none)
          × (pos 1 ≤ℤ qty)
          × (pos 1 ≤ℤ price.coeff))
        (record_entry k price qty ts m)
unfolding record_entry
record_entry-Yields k price qty ts m = ground arith

abbrev pub dropped : String → ℤ → RiskManager → RiskManager
dropped k pnl m =
    let total = m.daily_realized_pnl_krw +ℤ pnl in
    let threshold = halt_threshold_krw (record m {
      daily_realized_pnl_krw = total;
      active_positions = remove k m.active_positions;
    }) in
    record m {
      active_positions = remove k m.active_positions;
      daily_realized_pnl_krw = total;
      halt_logged = m.halt_logged || leb_ℤ total threshold;
    }

pub record_exit-Yields :
    (k : String) (pnl : ℤ) (m : RiskManager)
    → Yields m (dropped k pnl m) (contains k m.active_positions ≡ true) (record_exit k pnl m)
unfolding record_exit
record_exit-Yields k pnl m = ground arith

-- The loop of `restore_session` keeps every position once, under its own symbol.
collect-All :
    (ps : List PositionRecord) (a b : Dict PositionRecord)
    → collect ps a ≡ ok b
    → All IsPosition a
    → All IsPosition b × (length b ≡ length ps + length a)
unfolding collect
collect-All [] a b h v = ground arith
collect-All (p ∷ ps) a b h v = elim (Option-cases (get p.symbol a)) [
  | inr (q, e) ↦ ground arith
  | inl e ↦ ground (
    arith,
    collect-All ps (put p.symbol p a) b,
    All-put p.symbol p a,
    length-put_new p.symbol p a e,
  )
]

pub restore_session-Yields :
    (date : ℕ) (capital : ℤ) (ps : List PositionRecord) (entries pnl : ℤ) (m : RiskManager)
    {b : Dict PositionRecord}
    → collect ps [] ≡ ok b
    → Yields m
        (restored date capital entries pnl b m)
        ((pos 1 ≤ℤ capital) × (pos (length ps) ≤ℤ entries))
        (restore_session date capital ps entries pnl m)
unfolding restore_session
restore_session-Yields date capital ps entries pnl m h = ground arith

restore_session-refuses :
    (date : ℕ) (capital : ℤ) (ps : List PositionRecord) (entries pnl : ℤ) (m : RiskManager)
    {e : RiskError}
    → collect ps [] ≡ err e
    → (restore_session date capital ps entries pnl m).1 ≡ m
unfolding restore_session
restore_session-refuses date capital ps entries pnl m h = ground arith

-- One call of a method that writes.
pub data Call : Type 0 where
  start : ℕ → ℤ → Call
  restore : ℕ → ℤ → List PositionRecord → ℤ → ℤ → Call
  fill : String → Decimal → ℤ → Datetime → Call
  close : String → ℤ → Call

unfoldable pub call : Call → RiskManager → Result RiskError (Unit {0}) × RiskManager
call (start date capital) = start_session date capital
call (restore date capital ps entries pnl) = restore_session date capital ps entries pnl
call (fill k price qty ts) = record_entry k price qty ts
call (close k pnl) = record_exit k pnl

Yields-atomic :
    (m m' : RiskManager) (P : Type 0) (r : Result RiskError (Unit {0}) × RiskManager)
    (e : RiskError)
    → Yields m m' P r
    → r.0 ≡ err e
    → r.1 ≡ m
Yields-atomic m m' P (ok a, n) e y h = cc
Yields-atomic m m' P (err a, n) e y h = y

-- A call that raises, any of the four methods, changes nothing.
pub call_atomic :
    (c : Call) (m : RiskManager) (e : RiskError) → (call c m).0 ≡ err e → (call c m).1 ≡ m
unfolding call
call_atomic (start date capital) m e h =
    Yields-atomic m _ _ (start_session date capital m) e (start_session-Yields date capital m) h
call_atomic (restore date capital ps entries pnl) m e h = elim (Result-cases (collect ps [])) [
  | inl (e', bad) ↦ restore_session-refuses date capital ps entries pnl m bad
  | inr (b, good) ↦
      Yields-atomic m _ _ (restore_session date capital ps entries pnl m) e
        (restore_session-Yields date capital ps entries pnl m good) h
]
call_atomic (fill k price qty ts) m e h =
    Yields-atomic m _ _ (record_entry k price qty ts m) e (record_entry-Yields k price qty ts m) h
call_atomic (close k pnl) m e h =
    Yields-atomic m _ _ (record_exit k pnl m) e (record_exit-Yields k pnl m) h

Yields-IsValid :
    (m m' : RiskManager) (P : Type 0) (r : Result RiskError (Unit {0}) × RiskManager)
    → Yields m m' P r
    → IsValid m
    → (P → IsValid m')
    → IsValid r.1
Yields-IsValid m m' P (ok a, n) y v k = subst IsValid (sym y.1) (k y.0)
Yields-IsValid m m' P (err a, n) y v k = subst IsValid (sym y) v

-- Every method keeps the invariant, whether it returns or raises.
pub call-IsValid : (c : Call) (m : RiskManager) → IsValid m → IsValid (call c m).1
unfolding call
call-IsValid (start date capital) m v =
    Yields-IsValid m _ _ (start_session date capital m) (start_session-Yields date capital m) v
      λ _. ground arith
call-IsValid (restore date capital ps entries pnl) m v = elim (Result-cases (collect ps [])) [
  | inl (e', bad) ↦
      subst IsValid (sym (restore_session-refuses date capital ps entries pnl m bad)) v
  | inr (b, good) ↦
      Yields-IsValid m _ _ (restore_session date capital ps entries pnl m)
        (restore_session-Yields date capital ps entries pnl m good) v
        λ p. ground (arith, collect-All ps [] b good)
]
call-IsValid (fill k price qty ts) m v =
    Yields-IsValid m _ _ (record_entry k price qty ts m) (record_entry-Yields k price qty ts m) v
      λ p. record {
        counted = omega (
          arith,
          v.counted,
          length-put_new k (record { symbol = k; entry_price = price; qty = qty; entry_ts = ts })
              m.active_positions p.1,
        );
        positions =
            All-put k (record { symbol = k; entry_price = price; qty = qty; entry_ts = ts })
              m.active_positions (refl, p.0) v.positions;
      }
call-IsValid (close k pnl) m v =
    Yields-IsValid m _ _ (record_exit k pnl m) (record_exit-Yields k pnl m) v λ p. record {
      counted = omega (arith, v.counted, length-remove k m.active_positions p);
      positions = All-remove k m.active_positions v.positions;
    }
