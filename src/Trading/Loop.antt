-- ===== src/Trading/Loop.antt =====
-- core/trading/loop.py: one pass over a market.
pub mod Deciding
pub mod Pass
pub mod Kept
pub mod Guard
pub mod EventDay
