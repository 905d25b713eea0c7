-- ===== src/Monitor.antt =====
-- core/api/monitor_snapshot.py: the figures that the monitor shows.
pub mod Series
pub mod Chart
pub mod Outcome
pub mod Shape
pub mod Drawn
pub mod Charted
pub mod Stats
pub mod Performance
pub mod Totals
