-- ===== src/Safety.antt =====
-- core/safety/gate.py: the Safety Gate, the one barrier that every order passes. Its conditions are
-- tested in the order of the source, and each test that fails ends the check with its reason.
mod Gate
pub mod Verdict
pub mod Approval
unfoldable pub use Gate.{
  check, check_flags, check_loss, check_ratio, check_sellable, check_amount, check_buffer,
  check_warnings, check_open, check_session, check_duplicate, check_event, refuse_if,
}
