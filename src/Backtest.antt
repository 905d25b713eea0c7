-- ===== src/Backtest.antt =====
-- core/strategy/backtest.py: the replay of a strategy over past days, and its figures.
pub mod Account
pub mod Replay
pub mod Bounded
pub mod Figures
pub mod Paper
