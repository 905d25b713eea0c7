-- ===== src/Trading.antt =====
-- core/trading: the executor of orders.
pub mod Executor
pub mod ManualOrder
pub mod Loop
