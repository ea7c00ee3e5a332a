-- ===== src/Lib.antt =====
-- Verification of a day-trading system for the Korean stock market.
--
-- The program. A strategy watches minute bars and sends entry and exit signals. A risk manager sizes
-- and gates the entries, counts positions and entries of the day, and stops entries behind a daily
-- loss limit. The backtest engine runs both over recorded bars: it fills signals at prices with
-- slippage, charges commission and tax, and keeps cash, lots and trades. The executor does the same
-- with a broker: it places orders, polls for their fills and compares holdings and positions. The
-- store of real-time prices makes its bars out of ticks. The main program calls the executor through
-- the day, writes its events into a ledger, and restores it from there after a restart. The RSI
-- strategy, for daily bars, has a simulation of its own.
--
-- The files.
--   Symbol        `_SYMBOL_RE` of src/stock_agent/risk/manager.py and strategy/orb.py.
--   Clock         Python's dates and times: a day, a time of day and an offset in microseconds.
--   Signal        src/stock_agent/strategy/base.py: `EntrySignal`, `ExitSignal`; `MinuteBar` of
--                 data/realtime.py.
--   Decimal       Python's `decimal.Decimal` under the default context.
--   Risk          src/stock_agent/risk/manager.py: `RiskManager` is a record, `start_session`,
--                 `restore_session`, `record_entry` and `record_exit` are methods that may raise and
--                 `evaluate_entry` and `is_halted` functions of the record.
--   Orb           src/stock_agent/strategy/orb.py: `ORBStrategy` is a dictionary of the records of
--                 its symbols; `on_bar`, `on_time`, `restore_long_position`, `reset_session` and
--                 `mark_session_closed` return signals or an error and the state that is left.
--   RsiMr         src/stock_agent/strategy/rsi_mr.py: `on_bar` on a record of the strategy's
--                 dictionaries. RsiMr/Baseline and RsiMr/Simulation are backtest/rsi_mr.py: a record
--                 of the local variables of `compute_rsi_mr_baseline`, its two inner functions, the
--                 helpers behind them and the loop over the bars, which are an argument.
--   Realtime      src/stock_agent/data/realtime.py: `_on_tick` and the public methods on a record of
--                 the store; a tick, a turn of the polling loop and a call are steps in a row.
--   Costs         src/stock_agent/backtest/costs.py, function by function.
--   Engine        src/stock_agent/backtest/engine.py: the handlers of the signals on a record of the
--                 shared local variables of `run`; Engine/Loop is `run` with its sessions, for any
--                 strategy, given as a record of the methods of the `Strategy` protocol.
--   Executor      src/stock_agent/execution/executor.py: `Executor` is a record with the state W of
--                 the outside; broker, bar source, clock and sleep are a record of functions on W.
--                 Executor/Orders has the two handlers and the poll for a fill, Executor/Sweep the
--                 sessions, `reconcile`, `step` and `force_close_all`, Executor/Restore
--                 `restore_session`.
--   RateLimiter   src/stock_agent/broker/rate_limiter.py: `acquire` on the list of timestamps, with the
--                 clock and the sleep as functions on W and a history of grants as a relation.
--   Storage       src/stock_agent/storage/db.py: `SqliteTradingRecorder` with its tables as lists of
--                 rows; its methods record an event, count failures or load a day.
--   Main          src/stock_agent/main.py: the callbacks `_on_session_start`, `_on_step`,
--                 `_on_force_close` and `_on_daily_report` around an executor, a recorder and the
--                 list of what the notifier was told.
--   Common        names of the libraries, integers, dictionaries and methods that may raise.
-- Below each of these stand its theorems, by what they are about, and its examples.
--
-- How the code is read. An object is a record that a method takes and returns; a `raise` is a
-- constructor of an error type, and what was written before it stays written. A dictionary is a list
-- of pairs in insertion order, an `int` an unbounded integer. A `Decimal` is a whole coefficient and
-- a number of decimal places; arithmetic rounds half to even at 28 significant digits. Where a
-- theorem needs a product or a quotient without rounding it says how many digits its terms may have.
--
-- Bounds and fuel. Loops over lists are structural. The count of digits beyond 28 takes the number
-- itself as fuel, and the scaling of a quotient takes the number of digits of the divisor and 28.
-- The poll for a fill takes fuel; one more than the microseconds of its time-out is enough where the
-- clock goes on while it sleeps. A retried call counts its retries down.
--
-- A call of sqlite3 raises where an argument says so; a text column is what its parser makes of it,
-- with a key that orders as its text does, so that what was written is read back as it was.
--
-- Not modelled: logs and texts of errors; NaN, infinities and the limits of a decimal's exponent; a
-- comparison of a naive with an aware time, for which Python raises `TypeError`; the performance
-- ratios; threads; files, network, the connection and the schema of the database; the scheduler's
-- jobs and the assembly of the runtime; the dry run of the executor; the other strategies and their
-- simulations.
pub mod Common
pub mod Decimal
pub mod Symbol
pub mod Clock
pub mod Signal
pub mod Costs
pub mod Risk
pub mod Orb
pub mod RsiMr
pub mod Engine
pub mod RateLimiter
pub mod Executor
pub mod Main
pub mod Realtime
pub mod Storage
