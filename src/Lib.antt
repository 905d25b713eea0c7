-- ===== src/Lib.antt =====
-- The trading core of a bot for the Korean and US stock markets (the Python package core/), as far
-- as money moves in it: from a decision to an order, through the Safety Gate, to a fill.
--
-- The parts and how they meet. A decision of a strategy, an AI model or a user reaches `execute`
-- of core/trading/executor.py. It becomes an order (core/models.py), the Safety Gate
-- (core/safety/gate.py) asks the fund manager (core/fund/manager.py), the database
-- (core/db/store.py), the calendar of events and the exchange, and an approved order is sent to
-- the exchange (LIVE), filled in the virtual portfolio of core/simulation/portfolio.py
-- (SIMULATION) or only priced (DRY_RUN). Tables, log entries and events record the outcome. A pass
-- of core/trading/loop.py collects the data of the watchlist, lets core/trading/decision.py decide,
-- by rules or by the reply of a model, and executes the decision.
--
-- Which file models what:
--   Prelude, Prelude/*    shared names, integers, lists and Python dictionaries
--   Float, Float/Fixed    Python's float as a parameter, and an instance for the tests
--   Models, Models/*      core/models.py; the texts of reasons are constructors with their values
--   Config                core/config.py
--   World, World/*        the tables (core/db/models.py), the portfolio in memory, what was sent
--                         out (core/events/publisher.py), and the replies of the exchange
--   Store                 the queries of core/db/store.py and core/events/calendar.py
--   Simulation/*          core/simulation/portfolio.py, with upsert and delete of core/db/store.py
--   Fund/*                core/fund/manager.py
--   Safety/*              core/safety/gate.py, one function for each condition
--   Toss/Order            place of core/toss/order.py
--   Toss/Link, Client     core/toss/client.py and core/toss/auth.py; Slots, Sending, Ending, Spacing
--                         and Recovery are about the requests that they make
--   Toss/Calls, Market    core/toss/market.py with its cache; Lifetimes, Cache and Fresh are about it
--   Toss/Account, Orders  core/toss/account.py, and the requests of core/toss/order.py
--   Gateway/*             core/gateway/base.py, claude.py and deepseek.py: the reading of replies
--   MarketData/*          core/market_data/collector.py, watchlist.py and indicators.py
--   Backtest/*            core/strategy/backtest.py, with the ratio of Sharpe of
--                         core/market_data/indicators.py, and core/strategy/paper_trading.py
--   Health                core/monitoring/health.py
--   Store/*               the lists and sums of core/db/store.py behind reports and the monitor
--   Monitor/*             core/api/monitor_snapshot.py: the chart, the statistics on risk and performance,
--                         the totals;
--                         Outcome, Shape, Drawn and Charted are about what they come to
--   Report/*              core/report/extras.py, and the weekly figures of core/report/generator.py
--   Improvement/*         the versions of the strategies: their queries (core/db/store.py), candidates
--                         (core/trading/self_improvement.py), the self-assessment
--                         (core/trading/reflection.py) and the commands (core/api/routes.py)
--   Trading/Executor/*    core/trading/executor.py
--   Trading/Loop/*        core/trading/loop.py: a pass over a market, from the stop flags to the
--                         status update
--   Strategy/*            core/strategy/base.py, core/strategy/kr/*.py, core/strategy/us/*.py and
--                         core/trading/decision.py
--   Control/*             the commands stop, resume, simulate and dryrun of core/api/routes.py, the
--                         control flags of core/db/store.py, and the start in core/main.py
--   Trading/ManualOrder   the commands buy and sell of core/api/routes.py
--   Samples, Tests        concrete values, tests and witnesses
--
-- A handler is an action: it takes the state and gives a result, a value or an error, with the
-- state afterwards, which keeps what was written before an error. A read is a query, which leaves
-- the state alone. Every function of the model ends by the structure of its arguments, but for the
-- wait for a slot in Toss/Client, which runs on fuel: two turns are enough, as Toss/Ending shows.
--
-- Parameters: the type of floats with its operations; the record Exchange, with the replies of
-- the exchange, fresh identifiers, what the database driver makes of a float, and the first
-- second of a month; the replies of the AI services, `json.loads` and the conversions of texts;
-- the candles, the news and the indicators of the library ta; what the driver makes of a value in
-- a JSON column; the sums, means and deviations of Python; the backtest, where a candidate is
-- tried; the network behind Toss/Client, and `json.dumps`; `str.isdigit`. A reply may
-- be an error and may depend on the whole state; within one handler that has not written, the
-- same question has the same answer. The replies of the record Exchange are those that
-- core/toss/market.py, core/toss/account.py and core/toss/client.py hand on: the modules of Toss
-- model these by themselves, with their own state. Rows are read in the order of their insertion.
-- Handlers are atomic: no other handler runs in between. A quantity of the exchange is an int or a
-- float, a price is a float.
--
-- Not modelled: failures of the database, but for the columns that refuse a value, and of Redis,
-- the texts of logs, messages and prompts, the HTTP
-- requests, the pages and pictures of reports, the user interfaces, and the parts that the list above does not name.
pub mod Prelude
pub mod Float
pub mod Models
pub mod Config
pub mod World
pub mod Simulation
pub mod Store
pub mod Fund
pub mod Safety
pub mod Toss
pub mod Trading
pub mod Strategy
pub mod Control
pub mod Gateway
pub mod MarketData
pub mod Improvement
pub mod Backtest
pub mod Health
pub mod Monitor
pub mod Report
pub mod Samples
pub mod Tests
