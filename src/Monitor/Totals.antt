-- ===== src/Monitor/Totals.antt =====
-- The totals and the positions of core/api/monitor_snapshot.py.
use toss_invest_ai.Prelude.{ℕ, String, Bool, List, [], ◌∷◌, if◌then◌else◌}
use toss_invest_ai.Prelude.Int.{ℤ}
use toss_invest_ai.Prelude.Lists.{keep}
use toss_invest_ai.Prelude.Sort.{sort_by}
use toss_invest_ai.Prelude.Int.{pos}
use toss_invest_ai.Float.{Float, ◌⊖◌, ◌⊗◌, of_int, less}
use toss_invest_ai.Models.{Market, kr, us, Result, ok, ◌>>=◌, truncated}
use toss_invest_ai.World.{World, Exchange, HoldingStatus, PortfolioStatus}
use toss_invest_ai.Simulation.{same_market}
use toss_invest_ai.Store.Usage.{
  sum_float, get_operation_days, get_api_usage_today_summary, get_api_usage_month_summary,
}

pub record TotalAssets (F : Type 0) : Type 0 where
  pub total_krw : ℤ
  pub today_change_krw : ℤ
  pub today_change_pct : F
  pub cash_krw : ℤ
  pub kr_invested_krw : ℤ
  pub us_invested_krw : ℤ
  pub unrealized_pnl_krw : ℤ
  pub cumulative_return_pct : F
  pub seed_krw : ℤ
  pub operating_days : ℕ
  pub live_days : ℕ
  pub api_calls_today : ℕ
  pub api_cost_today_krw : ℤ
  pub api_calls_monthly : ℕ
  pub api_cost_monthly_krw : ℤ

-- What a position shows: the market, the symbol, the quantity and its return.
pub record Position (F : Type 0) : Type 0 where
  pub market : Market
  pub symbol : String
  pub quantity : ℤ
  pub pnl_pct : F

module _ {F : Type 0} ⦃f : Float F⦄ where
  abbrev pub whole_of : F → Result ℤ
  whole_of v = truncated v

  abbrev pub kr_worth : HoldingStatus F → F
  kr_worth h = of_int h.quantity ⊗ h.current_price

  abbrev pub us_worth : F → HoldingStatus F → F
  us_worth rate h = of_int h.quantity ⊗ h.current_price ⊗ rate

  abbrev pub gain_in_krw : F → HoldingStatus F → F
  gain_in_krw rate h =
      let delta = (h.current_price ⊖ h.avg_price) ⊗ of_int h.quantity in
      if same_market h.market us then delta ⊗ rate else delta

  abbrev pub in_market_sum : Market → (HoldingStatus F → F) → List (HoldingStatus F) → F
  in_market_sum market g hs =
      sum_float g (of_int (pos 0)) (keep (λ (h : HoldingStatus F). same_market h.market market) hs)

  -- The rounded sums in dollars and of tokens, and the short name of the model, are left out.
  unfoldable pub build_total_assets :
      Exchange F → PortfolioStatus F → F → World F → Result (TotalAssets F)
  build_total_assets x portfolio rate w =
      let hs = portfolio.holdings in
      let days = get_operation_days w in
      let today = get_api_usage_today_summary w in
      let month = get_api_usage_month_summary x w in
      (do
        kr_invested ← whole_of (in_market_sum kr kr_worth hs)
        us_invested ← whole_of (in_market_sum us (us_worth rate) hs)
        unrealized ← whole_of (sum_float (gain_in_krw rate) (of_int (pos 0)) hs)
        ok (record {
          total_krw = portfolio.total_value_krw;
          today_change_krw = portfolio.today_pnl_krw;
          today_change_pct = portfolio.today_pnl_pct ⊗ of_int (pos 100);
          cash_krw = portfolio.cash_krw;
          kr_invested_krw = kr_invested;
          us_invested_krw = us_invested;
          unrealized_pnl_krw = unrealized;
          cumulative_return_pct = portfolio.cumulative_pnl_pct ⊗ of_int (pos 100);
          seed_krw = w.settings.initial_seed_krw;
          operating_days = days.total_days;
          live_days = days.live_days;
          api_calls_today = today.call_count;
          api_cost_today_krw = today.cost_krw;
          api_calls_monthly = month.call_count;
          api_cost_monthly_krw = month.cost_krw;
        }))

  -- The best return comes first.
  abbrev pub better : HoldingStatus F → HoldingStatus F → Bool
  better g h = less h.pnl_pct g.pnl_pct

  unfoldable pub positions_of : List (HoldingStatus F) → List (Position F)
  positions_of [] = []
  positions_of (h ∷ hs) =
      record { market = h.market; symbol = h.symbol; quantity = h.quantity; pnl_pct = h.pnl_pct }
      ∷ positions_of hs

  unfoldable pub build_positions : List (HoldingStatus F) → List (Position F)
  build_positions hs = positions_of (sort_by better hs)
