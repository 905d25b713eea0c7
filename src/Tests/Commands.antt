-- ===== src/Tests/Commands.antt =====
-- Tests of the control commands.
use toss_invest_ai.Prelude.{true, false, none, some, [], ◌≡◌, refl, sym, ◌↔◌}
use toss_invest_ai.Float.Fixed.{Fixed}
use toss_invest_ai.Models.{kr, ok}
use toss_invest_ai.Control.{
  Control, flags_of, get_control_flags, post_stop, post_simulate, restart, cancel_open_orders,
  set_control_flags,
}
use toss_invest_ai.Control.History.{
  stop, restarts, begun, commanded, unchanged, and_then, History-IsPersisted,
  Unresumed-emergency_stop,
}
use toss_invest_ai.Control.Rehearsal.{IsRehearsed, post_simulate-IsRehearsed}
use toss_invest_ai.Config.{run_mode}
use toss_invest_ai.Samples.{settings}

-- The process before its first start, fifteen days and some hours after time 0.
abbrev fresh : Control Fixed
fresh = record {
  settings = settings;
  row = none;
  cache = none;
  now = 1_300_000;
  cancellations = [];
  events = [];
}

-- The emergency stop is set, and stored.
abbrev stopped : Control Fixed
stopped = (post_stop (ok []) (λ id. true) none fresh).1

-- A rehearsal that began at time 1000.
abbrev rehearsing : Control Fixed
rehearsing = record fresh {
  row = some (record {
    flags = record { emergency_stop = false; kr_stop = false; us_stop = false };
    simulation_started_at = some 1_000;
  });
}

stop_is_stored : get_control_flags stopped ≡ flags_of stopped.settings
unfolding get_control_flags post_stop cancel_open_orders set_control_flags run_mode
stop_is_stored = refl

stop_is_set : stopped.settings.emergency_stop ≡ true
unfolding post_stop cancel_open_orders set_control_flags run_mode
stop_is_set = refl

rehearsal_ends : (post_simulate false rehearsing).0 ≡ true
unfolding post_simulate
rehearsal_ends = refl

History-IsPersisted_example :
    flags_of (post_stop (ok []) (λ id. true) (some kr) (restart settings fresh)).1.settings
    ≡ get_control_flags (post_stop (ok []) (λ id. true) (some kr) (restart settings fresh)).1
History-IsPersisted_example =
    History-IsPersisted settings fresh (commanded begun (stop (ok []) (λ id. true) (some kr) refl))

Unresumed-emergency_stop_example : (restart settings stopped).settings.emergency_stop ≡ true
Unresumed-emergency_stop_example =
    Unresumed-emergency_stop (and_then unchanged (restarts settings refl)) stop_is_set
      (sym stop_is_stored)

post_simulate-IsRehearsed_example :
    ((post_simulate false rehearsing).0 ≡ true) ↔ IsRehearsed rehearsing
post_simulate-IsRehearsed_example = post_simulate-IsRehearsed rehearsing refl
