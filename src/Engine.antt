-- ===== src/Engine.antt =====
-- backtest/engine.py: the simulation that runs a strategy and the risk manager over a stream of bars
-- and settles fills with costs. The metrics of the result that need floats are not modelled.
pub mod Books
pub mod Ledger
pub mod Run
pub mod Outcomes
mod Tests
pub mod Loop
use korean_stock_trading_sys.Common.{
  ℕ, ◌+◌, Bool, true, false, not, ℤ, pos, leb_ℤ, ltb_ℤ, ◌+ℤ◌, ◌-ℤ◌, Option, none, some, List, [],
  ◌∷◌, ◌++◌, String, ◌==◌, if◌then◌else◌,
}
use korean_stock_trading_sys.Common.Dict.{Dict, get, contains, put, remove}
use korean_stock_trading_sys.Common.Exec.{Result, ok, err, Exec}
use korean_stock_trading_sys.Decimal.{Decimal, of_int, of_nat, mul, le, to_int, negative}
use korean_stock_trading_sys.Clock.{Datetime, before, kst}
use korean_stock_trading_sys.Signal.{
  EntrySignal, ExitSignal, Signal, entry, exit, ExitReason, MinuteBar,
}
use korean_stock_trading_sys.Costs.{
  CostError, buy_fill_price, sell_fill_price, buy_commission, sell_commission, sell_tax,
}
use korean_stock_trading_sys.Risk
use korean_stock_trading_sys.Risk.{
  RejectReason, RiskError, RiskConfig, RiskDecision, RiskManager, new_manager, start_session,
  evaluate_entry, record_entry, record_exit,
}
use korean_stock_trading_sys.Orb.{
  StrategyConfig, OrbError, OrbStrategy, new_strategy, on_bar, on_time,
}

-- The `Strategy` protocol: an object with its two methods, what they may raise, and the closing time
-- of its configuration.
pub record Strategy : Type 1 where
  pub State : Type 0
  pub Error : Type 0
  pub initial : State
  pub on_bar : MinuteBar → Exec State Error (List Signal)
  pub on_time : Datetime → Exec State Error (List Signal)
  pub force_close_at : ℕ

abbrev pub orb_strategy : Option StrategyConfig → Strategy
orb_strategy c = record {
  State = OrbStrategy;
  Error = OrbError;
  initial = new_strategy c;
  on_bar = on_bar;
  on_time = on_time;
  force_close_at = (new_strategy c).config.force_close_at;
}

-- `strategy_factory` is the strategy that a call of the factory makes.
pub record BacktestConfig : Type 1 where
  pub starting_capital_krw : ℤ
  pub commission_rate : Decimal
  pub sell_tax_rate : Decimal
  pub slippage_rate : Decimal
  pub strategy_config : Option StrategyConfig
  pub strategy_factory : Option Strategy
  pub risk_config : Option RiskConfig

pub data ConfigError : Type 0 where
  bad_capital bad_commission bad_tax bad_slippage two_strategies : ConfigError

abbrev pub both {ℓ κ} : {A : Type ℓ} {B : Type κ} → Option A → Option B → Bool
both (some _) (some _) = true
both _ _ = false

-- `BacktestConfig.__post_init__`
pub check_config : BacktestConfig → Result ConfigError BacktestConfig
check_config c =
    if leb_ℤ c.starting_capital_krw (pos 0)
    then err bad_capital
    else if negative c.commission_rate
    then err bad_commission
    else if negative c.sell_tax_rate
    then err bad_tax
    else if negative c.slippage_rate
    then err bad_slippage
    else if le (of_nat 1) c.slippage_rate
    then err bad_slippage
    else if both c.strategy_factory c.strategy_config
    then err two_strategies
    else ok c

-- What a run may raise: its own errors and those of the parts that it calls.
pub data EngineError (E : Type 0) : Type 0 where
  time_reversed missing_reason missing_position not_an_exit lots_left phantoms_left : EngineError E
  cost_error : CostError → EngineError E
  risk_error : RiskError → EngineError E
  strategy_error : E → EngineError E

pub record TradeRecord : Type 0 where
  pub symbol : String
  pub entry_ts : Datetime
  pub entry_price : Decimal
  pub exit_ts : Datetime
  pub exit_price : Decimal
  pub qty : ℤ
  pub exit_reason : ExitReason
  pub gross_pnl_krw : ℤ
  pub commission_krw : ℤ
  pub tax_krw : ℤ
  pub net_pnl_krw : ℤ

pub record DailyEquity : Type 0 where
  pub session_date : ℕ
  pub equity_krw : ℤ

pub record ActiveLot : Type 0 where
  pub symbol : String
  pub entry_fill_price : Decimal
  pub qty : ℤ
  pub entry_ts : Datetime
  pub entry_notional_krw : ℤ
  pub buy_commission_krw : ℤ

-- The local variables of `run` that the handlers share: the manager, the cash, the dictionary of
-- lots, the set of phantom longs and the counters.
pub record Book : Type 0 where
  pub risk : RiskManager
  pub cash : ℤ
  pub active : Dict ActiveLot
  pub phantom_longs : Dict (Unit {0})
  pub trades : List TradeRecord
  pub rejected : List (RejectReason × ℕ)
  pub post_slippage : ℕ

abbrev pub Handled : Type 0 → Type 0
Handled E = Result (EngineError E) (Unit {0}) × Book

-- `max(cash, 0)`
abbrev pub max_zero : ℤ → ℤ
max_zero z = if ltb_ℤ z (pos 0) then pos 0 else z

abbrev pub lot_of : EntrySignal → Decimal → ℤ → ℤ → ℤ → ActiveLot
lot_of s fill qty notional commission = record {
  symbol = s.symbol;
  entry_fill_price = fill;
  qty = qty;
  entry_ts = s.ts;
  entry_notional_krw = notional;
  buy_commission_krw = commission;
}

abbrev pub refuse_late : String → Book → Book
refuse_late symbol b = record b {
  post_slippage = b.post_slippage + 1;
  phantom_longs = put symbol tt b.phantom_longs;
}

abbrev pub bought : EntrySignal → ActiveLot → RiskManager → Book → Book
bought s lot risk b = record b {
  risk = risk;
  active = put s.symbol lot b.active;
  cash = b.cash -ℤ (lot.entry_notional_krw +ℤ lot.buy_commission_krw);
}

-- `rejected[reason] = rejected.get(reason, 0) + 1`, on a dictionary in insertion order.
abbrev pub reason_code : RejectReason → ℕ
reason_code Risk.halted_daily_loss = 0
reason_code Risk.max_positions_reached = 1
reason_code Risk.daily_entry_cap = 2
reason_code Risk.duplicate_symbol = 3
reason_code Risk.insufficient_cash = 4
reason_code Risk.below_min_notional = 5

unfoldable pub bump : RejectReason → List (RejectReason × ℕ) → List (RejectReason × ℕ)
bump r [] = (r, 1) ∷ []
bump r ((q, n) ∷ d) = if reason_code q == reason_code r then (q, n + 1) ∷ d else (q, n) ∷ bump r d

module _ {E : Type 0} where
  -- Where the risk manager refuses.
  pub refuse : String → Option RejectReason → Book → Handled E
  refuse symbol none b = (err missing_reason, b)
  refuse symbol (some r) b = (
    ok tt,
    record b { rejected = bump r b.rejected; phantom_longs = put symbol tt b.phantom_longs },
  )

  -- Behind `record_entry`.
  pub recorded :
      EntrySignal → ActiveLot → Book → Result RiskError (Unit {0}) × RiskManager → Handled E
  recorded s lot b (err e, risk) = (err (risk_error e), record b { risk = risk })
  recorded s lot b (ok _, risk) = (ok tt, bought s lot risk b)

  -- Behind the costs: refused where they exceed the cash, else recorded and paid.
  pub pay : EntrySignal → ActiveLot → Book → Handled E
  pay s lot b =
      if ltb_ℤ b.cash (lot.entry_notional_krw +ℤ lot.buy_commission_krw)
      then (ok tt, refuse_late s.symbol b)
      else recorded s lot b (record_entry s.symbol lot.entry_fill_price lot.qty s.ts b.risk)

  pub fill_entry : BacktestConfig → EntrySignal → ℤ → Book → Handled E
  fill_entry c s qty b = elim (buy_fill_price s.price c.slippage_rate) [
    | err e ↦ (err (cost_error e), b)
    | ok fill ↦
        let notional = mul fill (of_int qty) in
        elim (buy_commission notional c.commission_rate) [
          | err e ↦ (err (cost_error e), b)
          | ok commission ↦ pay s (lot_of s fill qty (to_int notional) commission) b
        ]
  ]

  unfoldable pub handle_entry : BacktestConfig → EntrySignal → Book → Handled E
  handle_entry c s b = elim (evaluate_entry b.risk s (max_zero b.cash)) [
    | err e ↦ (err (risk_error e), b)
    | ok d ↦ if d.approved then fill_entry c s d.qty b else refuse s.symbol d.reason b
  ]

-- The price, the whole notional and the charges of a sale.
pub record Sale : Type 0 where
  pub fill : Decimal
  pub notional : ℤ
  pub commission : ℤ
  pub tax : ℤ

pub sale_of : BacktestConfig → Decimal → ℤ → Result CostError Sale
sale_of c price qty = elim (sell_fill_price price c.slippage_rate) [
  | err e ↦ err e
  | ok fill ↦
      let notional = mul fill (of_int qty) in
      elim (sell_commission notional c.commission_rate) [
        | err e ↦ err e
        | ok commission ↦ elim (sell_tax notional c.sell_tax_rate) [
          | err e ↦ err e
          | ok tax ↦ ok (record {
            fill = fill;
            notional = to_int notional;
            commission = commission;
            tax = tax;
          })
        ]
      ]
]

abbrev pub trade_of : ExitSignal → ActiveLot → Sale → TradeRecord
trade_of s lot sale =
    let gross = sale.notional -ℤ lot.entry_notional_krw in
    let commission = lot.buy_commission_krw +ℤ sale.commission in
    record {
      symbol = s.symbol;
      entry_ts = lot.entry_ts;
      entry_price = lot.entry_fill_price;
      exit_ts = s.ts;
      exit_price = sale.fill;
      qty = lot.qty;
      exit_reason = s.reason;
      gross_pnl_krw = gross;
      commission_krw = commission;
      tax_krw = sale.tax;
      net_pnl_krw = gross -ℤ commission -ℤ sale.tax;
    }

abbrev pub sold : ExitSignal → TradeRecord → Sale → RiskManager → Book → Book
sold s trade sale risk b = record b {
  risk = risk;
  trades = b.trades ++ (trade ∷ []);
  active = remove s.symbol b.active;
  cash = b.cash +ℤ sale.notional -ℤ sale.commission -ℤ sale.tax;
}

module _ {E : Type 0} where
  -- Behind `record_exit`.
  pub exited :
      ExitSignal → TradeRecord → Sale → Book → Result RiskError (Unit {0}) × RiskManager → Handled E
  exited s trade sale b (err e, risk) = (err (risk_error e), record b { risk = risk })
  exited s trade sale b (ok _, risk) = (ok tt, sold s trade sale risk b)

  pub settle : ExitSignal → ActiveLot → Sale → Book → Handled E
  settle s lot sale b =
      let trade = trade_of s lot sale in
      exited s trade sale b (record_exit s.symbol trade.net_pnl_krw b.risk)

  unfoldable pub handle_exit : BacktestConfig → ExitSignal → Book → Handled E
  handle_exit c s b =
      if contains s.symbol b.phantom_longs
      then (ok tt, record b { phantom_longs = remove s.symbol b.phantom_longs })
      else elim (get s.symbol b.active) [
        | none ↦ (err missing_position, b)
        | some lot ↦ elim (sale_of c s.price lot.qty) [
          | err e ↦ (err (cost_error e), b)
          | ok sale ↦ settle s lot sale b
        ]
      ]

  unfoldable pub handle : BacktestConfig → Signal → Book → Handled E
  handle c (entry s) b = handle_entry c s b
  handle c (exit s) b = handle_exit c s b

  -- The rest of a loop behind one step of it.
  abbrev pub and_then : (Book → Handled E) → Handled E → Handled E
  and_then f (ok _, b) = f b
  and_then f (err e, b) = (err e, b)

  pub process_signals : BacktestConfig → List Signal → Book → Handled E
  process_signals c [] b = (ok tt, b)
  process_signals c (s ∷ ss) b = and_then (process_signals c ss) (handle c s b)

  -- The loop of `_close_session`, which takes exits only.
  pub close_signals : BacktestConfig → List Signal → Book → Handled E
  close_signals c [] b = (ok tt, b)
  close_signals c (entry s ∷ ss) b = (err not_an_exit, b)
  close_signals c (exit s ∷ ss) b = and_then (close_signals c ss) (handle_exit c s b)

  -- The two checks at the end of `_close_session`.
  abbrev pub closed_or : Book → Dict ActiveLot → Dict (Unit {0}) → Handled E
  closed_or b (_ ∷ _) ps = (err lots_left, b)
  closed_or b [] (_ ∷ _) = (err phantoms_left, b)
  closed_or b [] [] = (ok tt, b)

  pub check_closed : Book → Handled E
  check_closed b = closed_or b b.active b.phantom_longs
