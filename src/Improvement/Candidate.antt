-- ===== src/Improvement/Candidate.antt =====
-- core/trading/self_improvement.py: a proposed change becomes a candidate if its backtest is no worse.
use toss_invest_ai.Prelude.{
  ℕ, String, Bool, false, ◌||◌, Option, none, some, [], ◌∷◌, ◌++◌, if◌then◌else◌,
}
use toss_invest_ai.Float.{Float, less}
use toss_invest_ai.Config.{run_mode}
use toss_invest_ai.Models.{Market, kr, us}
use toss_invest_ai.World.{
  World, Action, Query, BacktestFigures, StrategyVersion, query, pure, publish_event,
  version_candidate_ready, ◌>>=◌,
}
use toss_invest_ai.Improvement.Versions.{get_latest_deployed_strategy_version, with_versions}

-- The backtest over the last year, and the identifier that the database gives to a new row.
pub record Trial (F : Type 0) : Type 0 where
  pub backtest : Market → Query F (BacktestFigures F)
  pub fresh_id : World F → ℕ

abbrev pub first_prompt_version : Market → String
first_prompt_version kr = "system_kr_v1"
first_prompt_version us = "system_us_v1"

module _ {F : Type 0} ⦃f : Float F⦄ where
  unfoldable pub regressed : BacktestFigures F → BacktestFigures F → Bool
  regressed candidate baseline =
      less candidate.win_rate baseline.win_rate
      || less candidate.sharpe_ratio baseline.sharpe_ratio
      || less candidate.mdd baseline.mdd

  -- Whether the deployed version has figures, and the candidate falls short of them.
  abbrev falls_short : BacktestFigures F → Option (BacktestFigures F) → Bool
  falls_short candidate none = false
  falls_short candidate (some figures) = regressed candidate figures

  abbrev pub is_worse : BacktestFigures F → Option (StrategyVersion F) → Bool
  is_worse candidate none = false
  is_worse candidate (some v) = falls_short candidate v.backtest_result

module _ {F : Type 0} ⦃f : Float F⦄ (t : Trial F) where
  abbrev name_of : Option (StrategyVersion F) → Option String
  name_of none = none
  name_of (some v) = some v.strategy_version

  abbrev prompt_of : Market → Option (StrategyVersion F) → String
  prompt_of market none = first_prompt_version market
  prompt_of market (some v) = v.prompt_version

  abbrev pub candidate_row : Market → String → BacktestFigures F → World F → StrategyVersion F
  candidate_row market change figures w =
      let baseline = get_latest_deployed_strategy_version (some market) w in
      record {
        id = t.fresh_id w;
        market = market;
        strategy_version = "v1.0.0";
        prompt_version = prompt_of market baseline;
        based_on = name_of baseline;
        change_summary = change;
        backtest_result = some figures;
        approved_by = none;
        proposed_at = w.now;
        deployed_at = none;
      }

  abbrev add_version : StrategyVersion F → World F → World F
  add_version v w = with_versions (w.database.strategy_versions ++ (v ∷ [])) w

  -- The row, which is announced.
  abbrev stored : StrategyVersion F → Action F (Option (StrategyVersion F))
  stored v w =
      (do
        _ ← publish_event (run_mode w.settings) (some v.market) (version_candidate_ready v)
        pure (some v))
        (add_version v w)

  -- A candidate that is worse is dropped.
  unfoldable pub propose_candidate : Market → String → Action F (Option (StrategyVersion F))
  propose_candidate market change w =
      (do
        figures ← query (t.backtest market)
        if is_worse figures (get_latest_deployed_strategy_version (some market) w)
            then pure none
            else stored (candidate_row market change figures w))
        w
