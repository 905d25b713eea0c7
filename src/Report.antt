-- ===== src/Report.antt =====
-- core/report/extras.py: the figures that a report adds.
pub mod Extras
pub mod Summaries
pub mod Among
pub mod Timeline
pub mod Weekly
pub mod View
