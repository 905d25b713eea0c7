-- ===== src/MarketData.antt =====
-- core/market_data: the watchlist, and what a pass of the trading loop collects for its symbols.
pub mod Watchlist
pub mod Indicators
pub mod Holding
pub mod Matching
pub mod Matched
pub mod Collector
pub mod Snapshot
