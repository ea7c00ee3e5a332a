-- ===== src/Engine/Outcomes.antt =====
-- backtest/engine.py: what `_handle_entry` and `_handle_exit` do, on each of their ways out.
use korean_stock_trading_sys.Common.{
  ◌≡◌, refl, inl, inr, ◌⊎◌, ap, true, false, Bool-cases, Option-cases, pos, ◌+ℤ◌, ◌-ℤ◌, ◌≤ℤ◌, ltb_ℤ,
  int_laws, eq_of_parts, none, some, [], ◌∷◌, ◌++◌, String,
}
use korean_stock_trading_sys.Common.Dict.{get, contains, put, remove}
use korean_stock_trading_sys.Common.Exec.{Result, ok, err, Result-cases}
use korean_stock_trading_sys.Decimal.{Decimal, of_int, mul, to_int}
use korean_stock_trading_sys.Signal.{EntrySignal, ExitSignal}
use korean_stock_trading_sys.Risk.{
  RiskError, RejectReason, RiskDecision, RiskManager, evaluate_entry, record_entry, record_exit,
}
use korean_stock_trading_sys.Risk.Session.{Yields, filled, dropped, record_exit-Yields}
use korean_stock_trading_sys.Costs.{CostError, buy_fill_price, buy_commission}
use korean_stock_trading_sys.Engine.{
  EngineError, risk_error, cost_error, missing_position, BacktestConfig, ActiveLot, Book, Handled,
  max_zero, refuse_late, bump, Sale, sale_of, trade_of, exited, settle, handle_exit,
}
use korean_stock_trading_sys.Engine.Books.{cost}

-- The book after a refusal by the risk manager.
abbrev pub refused : String → RejectReason → Book → Book
refused symbol r b = record b {
  rejected = bump r b.rejected;
  phantom_longs = put symbol tt b.phantom_longs;
}

-- The lot that an entry signal asks for: the risk manager approves its quantity for the cash that is
-- there, and it has the fill price and the commission of that quantity.
pub record Cleared (c : BacktestConfig) (s : EntrySignal) (b : Book) (lot : ActiveLot)
    : Type 0 where
  pub verdict : RiskDecision
  pub judged : evaluate_entry b.risk s (max_zero b.cash) ≡ ok verdict
  pub approved : verdict.approved ≡ true
  pub of_verdict : lot.qty ≡ verdict.qty
  pub of_signal : (lot.symbol ≡ s.symbol) × (lot.entry_ts ≡ s.ts)
  pub filled_at : buy_fill_price s.price c.slippage_rate ≡ ok lot.entry_fill_price
  pub notional : lot.entry_notional_krw ≡ to_int (mul lot.entry_fill_price (of_int lot.qty))
  pub fee :
      buy_commission (mul lot.entry_fill_price (of_int lot.qty)) c.commission_rate
      ≡ ok lot.buy_commission_krw

-- The risk manager does not approve, and gives the reason r.
pub record Refused (s : EntrySignal) (b b' : Book) : Type 0 where
  pub verdict : RiskDecision
  pub reason : RejectReason
  pub judged : evaluate_entry b.risk s (max_zero b.cash) ≡ ok verdict
  pub not_approved : verdict.approved ≡ false
  pub given : verdict.reason ≡ some reason
  pub counted : b' ≡ refused s.symbol reason b

-- An approved lot that costs more than the cash.
pub record Late (c : BacktestConfig) (s : EntrySignal) (b b' : Book) : Type 0 where
  pub lot : ActiveLot
  pub cleared : Cleared c s b lot
  pub too_dear : ltb_ℤ b.cash (cost lot) ≡ true
  pub counted : b' ≡ refuse_late s.symbol b

-- A purchase: the lot is paid from the cash that is there, and it is held by both sides.
pub record Bought (c : BacktestConfig) (s : EntrySignal) (b b' : Book) : Type 0 where
  pub lot : ActiveLot
  pub cleared : Cleared c s b lot
  pub affordable : cost lot ≤ℤ b.cash
  pub paid : b'.cash ≡ b.cash -ℤ cost lot
  pub held : get s.symbol b'.active ≡ some lot
  pub has_qty : pos 1 ≤ℤ lot.qty
  pub told : b'.risk ≡ filled s.symbol lot.entry_fill_price lot.qty s.ts b.risk
  pub others :
      (b'.trades ≡ b.trades) × (b'.phantom_longs ≡ b.phantom_longs) × (b'.rejected ≡ b.rejected)

-- What raises: the risk manager at the signal, the costs of an approved quantity, or the risk manager
-- when it is told of a lot that the cash covers.
pub data EntryFault {E : Type 0} (c : BacktestConfig) (s : EntrySignal) (b : Book)
    : EngineError E → Type 0 where
  unjudged :
      {e : RiskError}
      → evaluate_entry b.risk s (max_zero b.cash) ≡ err e
      → EntryFault c s b (risk_error e)
  no_price :
      {d : RiskDecision} {e : CostError}
      → evaluate_entry b.risk s (max_zero b.cash) ≡ ok d
      → d.approved ≡ true
      → buy_fill_price s.price c.slippage_rate ≡ err e
      → EntryFault c s b (cost_error e)
  no_fee :
      {d : RiskDecision} {fill : Decimal} {e : CostError}
      → evaluate_entry b.risk s (max_zero b.cash) ≡ ok d
      → d.approved ≡ true
      → buy_fill_price s.price c.slippage_rate ≡ ok fill
      → buy_commission (mul fill (of_int d.qty)) c.commission_rate ≡ err e
      → EntryFault c s b (cost_error e)
  untold :
      {lot : ActiveLot} {e : RiskError}
      → Cleared c s b lot
      → cost lot ≤ℤ b.cash
      → (record_entry s.symbol lot.entry_fill_price lot.qty s.ts b.risk).0 ≡ err e
      → EntryFault c s b (risk_error e)

abbrev pub EntryWays : {E : Type 0} → BacktestConfig → EntrySignal → Book → Handled E → Type 0
EntryWays c s b (err e, b') = (b' ≡ b) × EntryFault c s b e
EntryWays c s b (ok _, b') = Refused s b b' ⊎ (Late c s b b' ⊎ Bought c s b b')

-- A sale: the symbol is no phantom long, the lot is sold for its price, the trade is noted, its net
-- result is what the cash gains beyond the cost of the lot, and both sides drop the lot.
pub record Sold (c : BacktestConfig) (s : ExitSignal) (b b' : Book) : Type 0 where
  pub lot : ActiveLot
  pub sale : Sale
  pub real : contains s.symbol b.phantom_longs ≡ false
  pub was_held : get s.symbol b.active ≡ some lot
  pub priced : sale_of c s.price lot.qty ≡ ok sale
  pub noted : b'.trades ≡ b.trades ++ (trade_of s lot sale ∷ [])
  pub earned : b'.cash ≡ b.cash +ℤ cost lot +ℤ (trade_of s lot sale).net_pnl_krw
  pub told : b'.risk ≡ dropped s.symbol (trade_of s lot sale).net_pnl_krw b.risk
  pub dropped_lot : b'.active ≡ remove s.symbol b.active
  pub kept : (b'.phantom_longs ≡ b.phantom_longs) × (b'.rejected ≡ b.rejected)

-- What raises: a symbol without a lot, the costs of the sale, or the risk manager when it is told of
-- the result.
pub data ExitFault {E : Type 0} (c : BacktestConfig) (s : ExitSignal) (b : Book)
    : EngineError E → Type 0 where
  no_lot : get s.symbol b.active ≡ none → ExitFault c s b missing_position
  no_sale :
      {lot : ActiveLot} {e : CostError}
      → get s.symbol b.active ≡ some lot
      → sale_of c s.price lot.qty ≡ err e
      → ExitFault c s b (cost_error e)
  unsettled :
      {lot : ActiveLot} {sale : Sale} {e : RiskError}
      → get s.symbol b.active ≡ some lot
      → sale_of c s.price lot.qty ≡ ok sale
      → (record_exit s.symbol (trade_of s lot sale).net_pnl_krw b.risk).0 ≡ err e
      → ExitFault c s b (risk_error e)

abbrev pub ExitWays : {E : Type 0} → BacktestConfig → ExitSignal → Book → Handled E → Type 0
ExitWays c s b (err e, b') =
    (contains s.symbol b.phantom_longs ≡ false) × ((b' ≡ b) × ExitFault c s b e)
ExitWays c s b (ok _, b') =
    ((contains s.symbol b.phantom_longs ≡ true)
      × (b' ≡ record b { phantom_longs = remove s.symbol b.phantom_longs }))
    ⊎ Sold c s b b'

module _ (E : Type 0) (c : BacktestConfig) (s : ExitSignal) (b : Book) where
  exited_ways :
      (lot : ActiveLot) (sale : Sale) (o : Result RiskError (Unit {0}) × RiskManager) (P : Type 0)
      → contains s.symbol b.phantom_longs ≡ false
      → get s.symbol b.active ≡ some lot
      → sale_of c s.price lot.qty ≡ ok sale
      → ((e : RiskError)
          → o.0 ≡ err e
          → (record_exit s.symbol (trade_of s lot sale).net_pnl_krw b.risk).0 ≡ err e)
      → Yields b.risk (dropped s.symbol (trade_of s lot sale).net_pnl_krw b.risk) P o
      → ExitWays c s b (exited {E = E} s (trade_of s lot sale) sale b o)
  unfolding exited
  exited_ways lot sale (err e, risk) P real held priced back y =
      (real, (ap (λ m. record b { risk = m }) y, unsettled held priced (back e refl)))
  exited_ways lot sale (ok _, risk) P real held priced back y = inr (record {
    lot = lot;
    sale = sale;
    real = real;
    was_held = held;
    priced = priced;
    noted = refl;
    earned = eq_of_parts _ _ (omega int_laws);
    told = y.1;
    dropped_lot = refl;
    kept = (refl, refl);
  })

  -- An exit signal ends in one of three ways. A phantom long's exit takes the symbol from the set and
  -- changes nothing else. Any other exit raises and changes nothing, because the symbol has no lot,
  -- the costs of the sale raise, or the risk manager raises when it is told of the result; or its lot
  -- is sold, the net result of the trade is what the cash gains beyond the cost of the lot, and both
  -- sides drop the lot.
  pub handle_exit_ways : ExitWays c s b (handle_exit {E = E} c s b)
  unfolding handle_exit settle
  handle_exit_ways = elim (Bool-cases (contains s.symbol b.phantom_longs)) [
    | inl phantom ↦ rw (phantom, handle_exit) (inl (phantom, refl))
    | inr real ↦ elim (Option-cases (get s.symbol b.active)) [
      | inl h ↦ rw (real, handle_exit) (rw h (real, (refl, no_lot h)))
      | inr (lot, h) ↦ elim (Result-cases (sale_of c s.price lot.qty)) [
        | inl (e, h') ↦ rw (real, handle_exit) (rw h (rw h' (real, (refl, no_sale h h'))))
        | inr (sale, h') ↦
            rw (real, handle_exit)
              (rw h (
                rw h' (
                  exited_ways lot sale
                    (record_exit s.symbol (trade_of s lot sale).net_pnl_krw b.risk) _ real h h'
                    (λ e q. q)
                    (record_exit-Yields s.symbol (trade_of s lot sale).net_pnl_krw b.risk))))
      ]
    ]
  ]
