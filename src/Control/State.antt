-- ===== src/Control/State.antt =====
-- What the commands change: the settings in memory, the row control_flags and its copy in Redis, and
-- the cancellations that are asked of the exchange.
use toss_invest_ai.Prelude.{ℕ, String, Bool, false, Option, none, some, List}
use toss_invest_ai.Config.{Settings}
use toss_invest_ai.Models.{Market, Mode}

pub record Flags : Type 0 where
  pub emergency_stop : Bool
  pub kr_stop : Bool
  pub us_stop : Bool

pub record ControlRow : Type 0 where
  pub flags : Flags
  pub simulation_started_at : Option ℕ

-- An entry of the reply to a query of open orders; `none` is a missing key.
pub record OpenOrder : Type 0 where
  pub market : Option Market
  pub order_id : Option String

-- The event emergency_stop, with the flags and the ids of the cancelled orders.
pub record StopEvent : Type 0 where
  pub mode : Mode
  pub market : Option Market
  pub flags : Flags
  pub cancelled : List String

pub record Control (F : Type 0) : Type 0 where
  pub settings : Settings F
  -- `none` until the row is first written
  pub row : Option ControlRow
  pub cache : Option Flags
  pub now : ℕ
  -- the ids of the cancellations sent to the exchange, the newest first
  pub cancellations : List String
  -- the published events, the newest first
  pub events : List StopEvent

abbrev pub no_flags : Flags
no_flags = record { emergency_stop = false; kr_stop = false; us_stop = false }

abbrev row_with_flags : Flags → Option ControlRow → ControlRow
row_with_flags g none = record { flags = g; simulation_started_at = none }
row_with_flags g (some r) = record r { flags = g }

abbrev row_with_start : Option ℕ → Option ControlRow → ControlRow
row_with_start t none = record { flags = no_flags; simulation_started_at = t }
row_with_start t (some r) = record r { simulation_started_at = t }

abbrev row_flags : Option ControlRow → Flags
row_flags none = no_flags
row_flags (some r) = r.flags

abbrev pub row_start : Option ControlRow → Option ℕ
row_start none = none
row_start (some r) = r.simulation_started_at

module _ {F : Type 0} where
  abbrev pub flags_of : Settings F → Flags
  flags_of s = record {
    emergency_stop = s.emergency_stop;
    kr_stop = s.kr_stop;
    us_stop = s.us_stop;
  }

  abbrev pub with_flags : Flags → Settings F → Settings F
  with_flags g s = record s {
    emergency_stop = g.emergency_stop;
    kr_stop = g.kr_stop;
    us_stop = g.us_stop;
  }

  unfoldable pub set_control_flags : Flags → Control F → Control F
  set_control_flags g c = record c { row = some (row_with_flags g c.row) }

  unfoldable pub set_simulation_started_at : Option ℕ → Control F → Control F
  set_simulation_started_at t c = record c { row = some (row_with_start t c.row) }

  unfoldable pub get_control_flags : Control F → Flags
  get_control_flags c = row_flags c.row
