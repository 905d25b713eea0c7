-- ===== src/Control/Rehearsal.antt =====
-- The rehearsal before LIVE trading: SIMULATION is not turned off before its fourteen days.
use toss_invest_ai.Prelude.{ℕ, ◌+◌, ◌*◌, ◌≤◌, true, false, some, ◌≡◌, ◌↔◌, arith}
use toss_invest_ai.Control.State.{Control, row_start}
use toss_invest_ai.Control.Commands.{post_simulate}

module _ {F : Type 0} (c : Control F) where
  -- A start of the rehearsal is on record, and fourteen days of 86 400 seconds have passed since.
  abbrev pub IsRehearsed : Type 0
  IsRehearsed = (t : ℕ) × (row_start c.row ≡ some t) × (t + 14 * 86_400 ≤ c.now)

  -- Where SIMULATION is on, a command to turn it off succeeds exactly when a start of the rehearsal
  -- is on record and fourteen days have passed since.
  pub post_simulate-IsRehearsed :
      c.settings.is_simulation ≡ true → ((post_simulate false c).0 ≡ true) ↔ IsRehearsed
  unfolding post_simulate
  post_simulate-IsRehearsed h = ground arith
