-- ===== src/Executor/Guards.antt =====
-- execution/executor.py: what a halt keeps from the market.
use korean_stock_trading_sys.Executor.{Executor}
