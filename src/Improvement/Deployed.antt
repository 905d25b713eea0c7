-- ===== src/Improvement/Deployed.antt =====
-- The deployed version, in core/trading/self_improvement.py and core/trading/reflection.py.
use toss_invest_ai.Prelude.{
  String, string_equality, Bool, false, ◌&&◌, Option, none, some, List, [], ◌∷◌, ◌++◌, ◌≡◌, refl,
  ◌∙◌, ap, arith, ◌⊎◌, inl, inr, Bool-cases,
}
use toss_invest_ai.Prelude.Lists.{keep}
use toss_invest_ai.Float.{Float}
use toss_invest_ai.Models.{Market, ok, Result-cases}
use toss_invest_ai.World.{bind-cases, World, Exchange, StrategyVersion, BacktestFigures, Query}
use toss_invest_ai.Fund.Usage.{record_api_usage}
use toss_invest_ai.Gateway.Services.{Message}
use toss_invest_ai.Improvement.Versions.{
  get_latest_deployed_strategy_version, newest, is_approved, in_market,
}
use toss_invest_ai.Improvement.Candidate.{Trial, propose_candidate, is_worse, candidate_row}
use toss_invest_ai.Improvement.Reflecting.{
  extract_proposed_change, tried, Reflecting, run_reflection, call_freeform, after_content,
}

module _ {F : Type 0} where
  -- In each market and over all markets, the same version is deployed.
  abbrev pub SameDeployed : World F → World F → Type 0
  SameDeployed w w' =
      (m : Option Market)
      → get_latest_deployed_strategy_version m w' ≡ get_latest_deployed_strategy_version m w

  keep_without :
      (p : StrategyVersion F → Bool) (vs : List (StrategyVersion F)) (v : StrategyVersion F)
      → p v ≡ false
      → keep p (vs ++ (v ∷ [])) ≡ keep p vs
  keep_without p [] v h = ground (arith, h)
  keep_without p (u ∷ vs) v h = ground (arith, keep_without p vs v h)

  same_versions :
      (w w' : World F)
      → w'.database.strategy_versions ≡ w.database.strategy_versions
      → SameDeployed w w'
  unfolding get_latest_deployed_strategy_version
  same_versions w w' h m = rw h refl

  -- A row that nobody approved is not deployed.
  pending_added :
      (w w' : World F) (v : StrategyVersion F)
      → v.approved_by ≡ none
      → w'.database.strategy_versions ≡ w.database.strategy_versions ++ (v ∷ [])
      → SameDeployed w w'
  unfolding get_latest_deployed_strategy_version
  pending_added w w' v pending h m = rw h (
      ap newest (
        keep_without (λ (u : StrategyVersion F). is_approved u && in_market m u.market)
          w.database.strategy_versions v (ground (arith, pending))))

module _ {F : Type 0} ⦃f : Float F⦄ (t : Trial F) where
  -- The two outcomes of a proposal.
  pub propose_candidate-cases :
      (market : Market) (change : String) (w : World F)
      → ((propose_candidate t market change w).1 ≡ w)
        ⊎ ((figures : BacktestFigures F) × (t.backtest market w ≡ ok figures)
            × (is_worse figures (get_latest_deployed_strategy_version (some market) w) ≡ false)
            × ((propose_candidate t market change w).1.database.strategy_versions
                ≡ w.database.strategy_versions ++ (candidate_row t market change figures w ∷ [])))
  unfolding propose_candidate
  propose_candidate-cases market change w = elim (Result-cases (t.backtest market w)) [
    | inr (e, failed) ↦ inl (ground (arith, failed))
    | inl (figures, tested) ↦
        elim (Bool-cases
          (is_worse figures (get_latest_deployed_strategy_version (some market) w))) [
            | inl worse ↦ inl (ground (arith, tested, worse))
            | inr better ↦ inr (figures, tested, better, ground (arith, tested, better))
          ]
  ]

  pub propose_candidate-SameDeployed :
      (market : Market) (change : String) (w : World F)
      → SameDeployed w (propose_candidate t market change w).1
  propose_candidate-SameDeployed market change w = elim (propose_candidate-cases market change w) [
    | inl same ↦
        same_versions w (propose_candidate t market change w).1
          (ap (λ (v : World F). v.database.strategy_versions) same)
    | inr (figures, _, _, added) ↦
        pending_added w (propose_candidate t market change w).1
          (candidate_row t market change figures w) refl added
  ]

module _ {F : Type 0} ⦃f : Float F⦄ (x : Exchange F) (r : Reflecting F) (t : Trial F) where
  call_freeform-versions :
      (ask : Query F Message) (w : World F)
      → (call_freeform x r t ask w).1.database.strategy_versions ≡ w.database.strategy_versions
  unfolding record_api_usage
  call_freeform-versions ask w = ground arith

  tried-SameDeployed :
      (market : Market) (change : Option String) (w w' : World F)
      → SameDeployed w w'
      → SameDeployed w (tried x r t market change w').1
  tried-SameDeployed market none w w' same m = same m
  tried-SameDeployed market (some change) w w' same m =
      propose_candidate-SameDeployed t market change w' m ∙ same m

  after_content-SameDeployed :
      (market : Market) (content : String) (w : World F)
      → SameDeployed w (after_content x r t market content w).1
  after_content-SameDeployed market content w =
      tried-SameDeployed market (extract_proposed_change r content) w _ (same_versions w _ refl)

  -- A self-assessment leaves the deployed version of each market, and of both, as it was: whatever
  -- the model replies and proposes, whether a candidate is stored or an error is raised.
  pub run_reflection-SameDeployed :
      (market : Market) (w : World F) → SameDeployed w (run_reflection x r t market w).1
  unfolding run_reflection
  run_reflection-SameDeployed market w =
      let ask = call_freeform x r t (r.assess market) in
      let here = same_versions w (ask w).1 (call_freeform-versions (r.assess market) w) in
      bind-cases ask (after_content x r t market) (SameDeployed w) w (λ _ _. here)
        (λ content _ m. after_content-SameDeployed market content (ask w).1 m ∙ here m)
