-- ===== src/Config.antt =====
-- core/config.py: the settings that the modelled modules read, and the mode that they imply.
use toss_invest_ai.Prelude.{Bool, String, if◌then◌else◌}
use toss_invest_ai.Prelude.Int.{ℤ}
use toss_invest_ai.Models.{Mode, live, simulation, dry_run}

pub record Settings (F : Type 0) : Type 0 where
  pub claude_model : String
  pub claude_input_price_per_mtok : F
  pub claude_output_price_per_mtok : F
  pub initial_seed_krw : ℤ
  pub cash_buffer_ratio : F
  pub max_daily_loss_krw : ℤ
  pub max_position_ratio : F
  pub max_single_order_krw : ℤ
  pub emergency_stop : Bool
  pub kr_stop : Bool
  pub us_stop : Bool
  pub is_dry_run : Bool
  pub is_simulation : Bool

unfoldable pub run_mode : {F : Type 0} → Settings F → Mode
run_mode s = if s.is_dry_run then dry_run else if s.is_simulation then simulation else live
