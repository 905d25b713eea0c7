-- ===== src/Store/Usage.antt =====
-- The sums of api_usage and the days of operation, of core/db/store.py.
use toss_invest_ai.Prelude.{
  ℕ, ◌-◌, ◌/◌, String, Option, none, some, List, [], ◌∷◌, leb, if◌then◌else◌,
}
use toss_invest_ai.Prelude.Int.{ℤ, pos, ◌+ℤ◌}
use toss_invest_ai.Prelude.Lists.{length, keep}
use toss_invest_ai.Float.{Float, ◌⊕◌, of_int}
use toss_invest_ai.World.{World, ApiUsage, Exchange, PortfolioSnapshot}
use toss_invest_ai.Store.{today_start_utc, seconds_per_day}

pub record UsageSummary (F : Type 0) : Type 0 where
  pub cost_krw : ℤ
  pub cost_usd : F
  pub call_count : ℕ
  pub input_tokens : ℤ
  pub output_tokens : ℤ
  -- the model of the last row, which only the summary of the day has
  pub model : Option String

pub record OperationDays : Type 0 where
  pub total_days : ℕ
  pub live_days : ℕ

-- `sum` of integers.
unfoldable pub sum_ℤ : {A : Type 0} → (A → ℤ) → List A → ℤ
sum_ℤ g [] = pos 0
sum_ℤ g (x ∷ xs) = g x +ℤ sum_ℤ g xs

abbrev pub earlier_of : Option ℕ → Option ℕ → Option ℕ
earlier_of none b = b
earlier_of (some a) none = some a
earlier_of (some a) (some b) = some (if leb a b then a else b)

-- The first row in the order of snapshot_at.
unfoldable pub first_snapshot : List PortfolioSnapshot → Option ℕ
first_snapshot [] = none
first_snapshot (s ∷ ss) = earlier_of (some s.snapshot_at) (first_snapshot ss)

abbrev pub days_since : ℕ → Option ℕ → ℕ
days_since now none = 0
days_since now (some t) = (now - t) / seconds_per_day

module _ {F : Type 0} where
  abbrev pub last_model : List (ApiUsage F) → Option String
  last_model [] = none
  last_model (u ∷ []) = some u.model
  last_model (u ∷ v ∷ us) = last_model (v ∷ us)

  abbrev pub rows_since : ℕ → List (ApiUsage F) → List (ApiUsage F)
  rows_since start = keep (λ (u : ApiUsage F). leb start u.created_at)

  unfoldable pub get_operation_days : World F → OperationDays
  get_operation_days w =
      let live_first = first_snapshot w.database.live_portfolio_snapshots in
      let sim_first = first_snapshot w.database.simulation_portfolio_snapshots in
      record {
        total_days = days_since w.now (earlier_of sim_first live_first);
        live_days = days_since w.now live_first;
      }

module _ {F : Type 0} ⦃f : Float F⦄ where
  -- `sum` of floats, from the left.
  unfoldable pub sum_float : {A : Type 0} → (A → F) → F → List A → F
  sum_float g total [] = total
  sum_float g total (x ∷ xs) = sum_float g (total ⊕ g x) xs

  abbrev pub summary_of : List (ApiUsage F) → Option String → UsageSummary F
  summary_of rows model = record {
    cost_krw = sum_ℤ (λ (u : ApiUsage F). u.cost_krw) rows;
    cost_usd = sum_float (λ (u : ApiUsage F). u.cost_usd) (of_int (pos 0)) rows;
    call_count = length rows;
    input_tokens = sum_ℤ (λ (u : ApiUsage F). u.input_tokens) rows;
    output_tokens = sum_ℤ (λ (u : ApiUsage F). u.output_tokens) rows;
    model = model;
  }

  unfoldable pub get_api_usage_month_summary : Exchange F → World F → UsageSummary F
  get_api_usage_month_summary x w =
      summary_of (rows_since (x.month_start w.now) w.database.api_usage) none

  unfoldable pub get_api_usage_today_summary : World F → UsageSummary F
  get_api_usage_today_summary w =
      let rows = rows_since (today_start_utc w.now) w.database.api_usage in
      summary_of rows (last_model rows)
