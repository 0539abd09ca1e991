-- ===== src/Lib.antt =====
-- Forex-EA, a trading bot: strategies give signals, a risk manager admits them, an executor holds
-- the orders, a loop trails and closes them, and guards outside the loop stop or restart it. This
-- library models the bot's decisions and the state behind them, and proves what they guarantee.
--
-- The parts and how they interact. For each signal (`_handle_signal` of src/bot.py) the bot asks
-- `RiskManager.evaluate` (src/risk/risk_manager.py), which asks the blackout checker
-- (src/econ_calendar/), the correlation throttle (src/correlation/), the lot sizer
-- (src/risk/position_sizing.py) and the prop-firm guard (src/propfirm/). An order that the executor
-- (src/execution/mt5_live.py) accepts is written to the journal (src/execution/journal.py) and
-- booked as risk; a closing, or a reconciliation with the broker, settles both. Open orders are
-- trailed by src/execution/stops.py and closed by the bot's loop (src/bot.py). The watchdog
-- (src/watchdog/) restarts a bot that stops writing heartbeats. The simulation
-- (src/backtesting/engine.py) and the replay (src/replay/engine.py) take the same decisions over
-- recorded bars. The operator's switches (src/voice/killswitch.py, src/api/bot_control.py,
-- src/execution/strategy_toggles.py) and the signal memory (src/execution/signal_dedup.py) are
-- tables that the processes share. The allocator (src/allocator/) weighs the strategies of a
-- symbol; its weight is the risk multiplier of `evaluate`. People get access through a Telegram bot
-- (src/api/telegram_signup.py) that files their request; an administrator approves it over the HTTP
-- API (src/api/server.py), which makes the account (src/api/users.py) and its setup link, and lets
-- users log in.
--
-- Files, each after its source:
--   Execution            the types of src/execution/base.py and src/strategies/base.py
--   Execution/Stops      update_peak, proposed_stop, _target_stop of src/execution/stops.py
--   Execution/Trailing   `_apply_trailing` of src/bot.py; Execution/Exits `_close_trigger`
--   Journal              the tables and calls of src/execution/journal.py; Fills the log of fills
--   Bot                  the bot's state and the executor's interface; Bot/Opening `_handle_signal`,
--                        Bot/Closing `_close_order`, Bot/Reconcile the seeding and the reconciliation,
--                        Bot/Alerts the throttled alerts, Bot/Exposure the count of open trades,
--                        Bot/Rounds the loop's set-up and state, Bot/Managing and
--                        Bot/Tick `tick` and `run_forever`
--   Mt5                  `MT5Executor` of src/execution/mt5_live.py over the terminal's calls
--   Mock                 `MockExecutor` of src/execution/mock.py
--   Risk/Sizing          lot_size_from_risk, pip sizes and values, the resolver's caches
--   Risk/Manager         every gate of `evaluate`, the registrations, the daily reset
--   Correlation          `PortfolioThrottle.decide`, `CorrelationStore.pair` and its writes
--   Calendar             the event store, `BlackoutChecker`; Calendar/Symbols the symbols' currencies
--   PropFirm             `PropFirmGuard.observe`, `check`, `note_trade_opened` and their row
--   Watchdog             `Watchdog.run_once` with its decision, cooldown and log
--   Replay, Backtest     the replay of one trade, the simulation of a strategy
--   Allocator            `_allocate_symbol` of src/allocator/allocator.py; Allocator/Refresh the scores,
--                        `allocate`, the store's write and the bot's refresh
--   Strategies           the twelve strategies of src/strategies/; its children Averages, Ranges and
--                        Breakouts hold them, Generate their `generate_signal`
--   Drift                `DriftMonitor.report` of src/drift/monitor.py, the baselines' store
--   Controls             the switches and the signal memory
--   Users                `UserStore` of src/api/users.py with src/api/ad_id.py
--   Signup               the store of src/api/subscription_requests.py; Signup/Bot the bot of
--                        src/api/telegram_signup.py
--   Accounts             setup links, and in its children the log-in and the administrator's endpoints of
--                        src/api/server.py, with src/api/auth.py
--   Float, Result, Table, Text, Prelude   floats, exceptions, tables, ASCII text, shared lemmas
-- Child modules are named for what they prove; Tests holds the theorems at concrete inputs.
--
-- State is passed explicitly: an operation takes the state and returns the new one. A SQLite table
-- is an association list (Table), a table of one row an option. A Python exception is a value of
-- Result, or the outcome `none` where only one kind can occur. The clock and everything that a
-- third party answers (the MT5 terminal, callbacks, the bar feed) is an argument of the call. An
-- instant is a number of microseconds since the epoch, in UTC. Formatted texts are constructors
-- that hold what is formatted; the strategies print numbers by the record Format.
--
-- A Python float is an element of an arbitrary carrier with the operations of the record Float. A
-- theorem that needs laws of floats names them: IsOrdered (comparisons, true of IEEE 754 with NaN),
-- IsFloored (floor division, where the quotient is at most 10¹⁵) and IsMonotone (sums). Float/Fixed
-- gives fixed-point numbers that meet them, which the tests compute with. `sum` is the left fold of the
-- additions, as before Python 3.12; the compensation of later versions is left out. Integers are natural
-- numbers, as Python's do not overflow; counts and limits that the code keeps in `int` are never
-- negative there.
--
-- A failure of SQLite itself is modelled where the code catches it and goes on to trade, in the
-- deduplication of signals; elsewhere the stores answer.
--
-- No fuel is used: every loop is over a list and ends with it; `run_forever` runs over a list of
-- rounds, of any length, each with what the outside says during one iteration.
--
-- The terminal's calls are the record Terminal, an argument; no law of it is assumed. What the bot
-- assumes of an executor is IsBroker, which Mt5/Broker proves of the live one.
--
-- Not modelled: indicators and the regimes (pandas), the other endpoints of the HTTP API,
-- notifications, the MT5 terminal and its feed, the mobile app; in the bot the texts of its
-- digests, the explanation, narration and replay hooks (written only, their failures caught);
-- statistics of fills.
pub mod Prelude
pub mod Table
pub mod Float
pub mod Execution
pub mod PropFirm
pub mod Watchdog
pub mod Text
pub mod Result
pub mod Risk
pub mod Correlation
pub mod Calendar
pub mod Replay
pub mod Backtest
pub mod Controls
pub mod Allocator
pub mod Drift
pub mod Journal
pub mod Fills
pub mod Bot
pub mod Mt5
pub mod Mock
pub mod Users
pub mod Signup
pub mod Accounts
pub mod Strategies
mod Tests
