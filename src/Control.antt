-- ===== src/Control.antt =====
-- The control commands of core/api/routes.py, the row control_flags of core/db/store.py that they
-- write, and the restart of the process in core/main.py, which reads it.
mod State
mod Commands
pub mod Lasting
pub mod History
pub mod Rehearsal
pub use State.{Flags, ControlRow, Control, OpenOrder, StopEvent, flags_of}
unfoldable pub use State.{set_control_flags, set_simulation_started_at, get_control_flags}
unfoldable pub use Commands.{
  cancel_open_orders, post_stop, post_resume, post_simulate, post_dryrun, restart,
}
