-- ===== src/World/Status.antt =====
-- What `get_portfolio_status` of core/fund/manager.py reports, and `HealthSnapshot` of
-- core/monitoring/health.py with its warnings.
use toss_invest_ai.Prelude.{ℕ, String, Bool, List}
use toss_invest_ai.Prelude.Int.{ℤ}
use toss_invest_ai.Models.{Market}

pub record HoldingStatus (F : Type 0) : Type 0 where
  pub symbol : String
  pub market : Market
  pub quantity : ℤ
  pub avg_price : F
  pub current_price : F
  pub pnl_pct : F

pub record PortfolioStatus (F : Type 0) : Type 0 where
  pub total_value_krw : ℤ
  pub today_pnl_krw : ℤ
  pub today_pnl_pct : F
  pub cumulative_pnl_krw : ℤ
  pub cumulative_pnl_pct : F
  pub cash_buffer_krw : ℤ
  pub cash_krw : ℤ
  pub holdings : List (HoldingStatus F)

pub record HealthSnapshot (F : Type 0) : Type 0 where
  pub cpu_pct : F
  pub memory_pct : F
  pub disk_pct : F
  pub temp_c : F
  pub toss_api_reachable : Bool
  pub collected_at : ℕ

-- The texts of the warnings, with the values that they print.
pub data Warning (F : Type 0) : Type 0 where
  cpu_high memory_high disk_high temp_high : F → Warning F
  toss_unreachable : Warning F
