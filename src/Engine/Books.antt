-- ===== src/Engine/Books.antt =====
-- backtest/engine.py: the books of a run. Cash and open lots against the closed trades, and the lots
-- against the positions of the risk manager.
use korean_stock_trading_sys.Common.{◌≡◌, ℤ, pos, ◌+ℤ◌, int_laws, Same, List, [], ◌∷◌, ◌++◌}
use korean_stock_trading_sys.Common.Totals.{total}
use korean_stock_trading_sys.Common.Paired.{Paired}
use korean_stock_trading_sys.Common.Dict.{Dict}
use korean_stock_trading_sys.Risk.{PositionRecord}
use korean_stock_trading_sys.Engine.{TradeRecord, ActiveLot}

-- What a lot has cost, with the commission.
abbrev pub cost : ActiveLot → ℤ
cost lot = lot.entry_notional_krw +ℤ lot.buy_commission_krw

abbrev pub invested : Dict ActiveLot → ℤ
invested = total cost

unfoldable pub realised : List TradeRecord → ℤ
realised [] = pos 0
realised (t ∷ ts) = t.net_pnl_krw +ℤ realised ts

pub realised-append :
    (ts : List TradeRecord) (t : TradeRecord)
    → Same (realised (ts ++ (t ∷ []))) (realised ts +ℤ t.net_pnl_krw)
unfolding realised
realised-append [] t = omega int_laws
realised-append (u ∷ ts) t = omega (int_laws, realised-append ts t)

-- A lot and the manager's record of the same position.
abbrev pub Matches : ActiveLot → PositionRecord → Type 0
Matches lot p =
    (lot.symbol ≡ p.symbol)
    × (lot.qty ≡ p.qty)
    × (lot.entry_fill_price ≡ p.entry_price)
    × (lot.entry_ts ≡ p.entry_ts)

-- The two dictionaries hold the same symbols in the same order, with matching values.
abbrev pub Synced : Dict ActiveLot → Dict PositionRecord → Type 0
Synced = Paired Matches
