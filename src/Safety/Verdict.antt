-- ===== src/Safety/Verdict.antt =====
-- A result of the check that says `approved` is the bare approval: no early return sets the flag.
use toss_invest_ai.Prelude.{true, ◌≡◌, arith}
use toss_invest_ai.Float.{Float}
use toss_invest_ai.Models.{Order, RunMode, GateResult, approve, ok}
use toss_invest_ai.World.{World, Exchange}
use toss_invest_ai.Safety.Gate.{
  check_event, check_duplicate, check_session, check_open, check_warnings, check_buffer,
  check_amount, check_sellable, check_ratio, check_loss, check_flags, check,
}

module _ {F : Type 0} ⦃f : Float F⦄ (x : Exchange F) (o : Order F) (m : RunMode) (w : World F) where
  check_event_approved :
      (g : GateResult F) → check_event x o w ≡ ok g → g.approved ≡ true → g ≡ approve
  unfolding check_event
  check_event_approved g h a = ground arith

  check_duplicate_approved :
      (g : GateResult F) → check_duplicate x o w ≡ ok g → g.approved ≡ true → g ≡ approve
  unfolding check_duplicate
  check_duplicate_approved g h a = ground (arith, check_event_approved g)

  check_session_approved :
      (g : GateResult F) → check_session x o w ≡ ok g → g.approved ≡ true → g ≡ approve
  unfolding check_session
  check_session_approved g h a = ground (arith, check_duplicate_approved g)

  check_open_approved :
      (g : GateResult F) → check_open x o w ≡ ok g → g.approved ≡ true → g ≡ approve
  unfolding check_open
  check_open_approved g h a = ground (arith, check_session_approved g)

  check_warnings_approved :
      (g : GateResult F) → check_warnings x o w ≡ ok g → g.approved ≡ true → g ≡ approve
  unfolding check_warnings
  check_warnings_approved g h a = ground (arith, check_open_approved g)

  check_buffer_approved :
      (g : GateResult F) → check_buffer x o m w ≡ ok g → g.approved ≡ true → g ≡ approve
  unfolding check_buffer
  check_buffer_approved g h a = ground (arith, check_warnings_approved g)

  check_amount_approved :
      (g : GateResult F) → check_amount x o m w ≡ ok g → g.approved ≡ true → g ≡ approve
  unfolding check_amount
  check_amount_approved g h a = ground (arith, check_buffer_approved g)

  check_sellable_approved :
      (g : GateResult F) → check_sellable x o m w ≡ ok g → g.approved ≡ true → g ≡ approve
  unfolding check_sellable
  check_sellable_approved g h a = ground (arith, check_amount_approved g)

  check_ratio_approved :
      (g : GateResult F) → check_ratio x o m w ≡ ok g → g.approved ≡ true → g ≡ approve
  unfolding check_ratio
  check_ratio_approved g h a = ground (arith, check_sellable_approved g)

  check_loss_approved :
      (g : GateResult F) → check_loss x o m w ≡ ok g → g.approved ≡ true → g ≡ approve
  unfolding check_loss
  check_loss_approved g h a = ground (arith, check_ratio_approved g)

  check_flags_approved :
      (g : GateResult F) → check_flags x o m w ≡ ok g → g.approved ≡ true → g ≡ approve
  unfolding check_flags
  check_flags_approved g h a = ground (arith, check_loss_approved g)

  pub check_approved : (g : GateResult F) → check x o m w ≡ ok g → g.approved ≡ true → g ≡ approve
  unfolding check
  check_approved g h a = ground (arith, check_flags_approved g)
