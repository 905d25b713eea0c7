-- ===== src/Improvement/Candidates.antt =====
-- The figures of a candidate of core/trading/self_improvement.py.
use toss_invest_ai.Prelude.{String, false, none, some, ◌≡◌, arith, inl, inr, Bool-cases}
use toss_invest_ai.Float.{Float, less}
use toss_invest_ai.Models.{Market, ok, Result-cases}
use toss_invest_ai.World.{World, StrategyVersion, BacktestFigures}
use toss_invest_ai.Improvement.Versions.{get_latest_deployed_strategy_version}
use toss_invest_ai.Improvement.Candidate.{Trial, propose_candidate, regressed, is_worse}

module _ {F : Type 0} ⦃f : Float F⦄ where
  -- Neither the share of gains nor Sharpe's ratio nor the drawdown is worse.
  pub record IsNoWorse (figures baseline : BacktestFigures F) : Type 0 where
    pub win_rate : less figures.win_rate baseline.win_rate ≡ false
    pub sharpe_ratio : less figures.sharpe_ratio baseline.sharpe_ratio ≡ false
    pub mdd : less figures.mdd baseline.mdd ≡ false

  not_regressed :
      (figures baseline : BacktestFigures F)
      → regressed figures baseline ≡ false
      → IsNoWorse figures baseline
  unfolding regressed
  not_regressed figures baseline h = ground (arith, h)

module _ {F : Type 0} ⦃f : Float F⦄ (t : Trial F) where
  proposed :
      (market : Market) (change : String) (w : World F) (v : StrategyVersion F)
      → (propose_candidate t market change w).0 ≡ ok (some v)
      → (figures : BacktestFigures F) × (t.backtest market w ≡ ok figures)
        × (v.backtest_result ≡ some figures)
        × (v.approved_by ≡ none)
        × (is_worse figures (get_latest_deployed_strategy_version (some market) w) ≡ false)
  unfolding propose_candidate
  proposed market change w v h = elim (Result-cases (t.backtest market w)) [
    | inr (e, failed) ↦ ground (arith, h, failed)
    | inl (figures, tested) ↦
        elim (Bool-cases
          (is_worse figures (get_latest_deployed_strategy_version (some market) w))) [
            | inl worse ↦ ground (arith, h, tested, worse)
            | inr better ↦ (
              figures,
              tested,
              ground (arith, h, tested, better),
              ground (arith, h, tested, better),
              better,
            )
          ]
  ]

  -- Where a version with figures is deployed in the market, a candidate that is stored has figures
  -- of which the win rate, the ratio of Sharpe and the drawdown are not less than those, and is not
  -- approved.
  pub propose_candidate-IsNoWorse :
      (market : Market) (change : String) (w : World F) (v deployed : StrategyVersion F)
      (baseline : BacktestFigures F)
      → (propose_candidate t market change w).0 ≡ ok (some v)
      → get_latest_deployed_strategy_version (some market) w ≡ some deployed
      → deployed.backtest_result ≡ some baseline
      → (figures : BacktestFigures F) × (v.backtest_result ≡ some figures)
        × (v.approved_by ≡ none)
        × IsNoWorse figures baseline
  propose_candidate-IsNoWorse market change w v deployed baseline h latest known =
      let (figures, _, kept, pending, better) = proposed market change w v h in
      (
        figures,
        kept,
        pending,
        not_regressed figures baseline (ground (arith, better, latest, known)),
      )
