-- ===== src/Tests/Versions.antt =====
-- Tests of the versions of the strategies.
use toss_invest_ai.Prelude.{ℕ, String, string_equality, true, none, some, [], ◌∷◌, ◌≡◌, refl}
use toss_invest_ai.Prelude.Int.{pos, ◌*ℤ◌}
use toss_invest_ai.Float.Fixed.{Fixed, fixed_float}
use toss_invest_ai.Models.{kr, ok}
use toss_invest_ai.World.{World, BacktestFigures, StrategyVersion}
use toss_invest_ai.Improvement.Versions.{get_latest_deployed_strategy_version, newest}
use toss_invest_ai.Improvement.Candidate.{Trial, propose_candidate, candidate_row, regressed}
use toss_invest_ai.Improvement.Candidates.{IsNoWorse, propose_candidate-IsNoWorse}
use toss_invest_ai.Improvement.Commands.{post_version_reject}
use toss_invest_ai.Improvement.Deployed.{SameDeployed, run_reflection-SameDeployed}
use toss_invest_ai.Improvement.Restored.{post_version_reject-SameDeployed}
use toss_invest_ai.Improvement.Reflecting.{
  Reflecting, run_reflection, extract_proposed_change, last_marked,
}
use toss_invest_ai.Samples.{start, exchange, won}

abbrev figures : ℕ → BacktestFigures Fixed
figures n = record {
  win_rate = won n;
  avg_return = won 0;
  mdd = won 0;
  sharpe_ratio = won n;
  profit_factor = won 0;
}

abbrev deployed_version : StrategyVersion Fixed
deployed_version = record {
  id = 1;
  market = kr;
  strategy_version = "v1.0.0";
  prompt_version = "system_kr_v2";
  based_on = none;
  change_summary = "";
  backtest_result = some (figures 1);
  approved_by = some "dev";
  proposed_at = 10;
  deployed_at = some 20;
}

abbrev pending_version : StrategyVersion Fixed
pending_version = record deployed_version { id = 2; approved_by = none; deployed_at = none }

abbrev with_rows : World Fixed
with_rows = record start {
  database = record start.database { strategy_versions = deployed_version ∷ pending_version ∷ [] };
}

abbrev trial : Trial Fixed
trial = record { backtest = λ m w. ok (figures 2); fresh_id = λ w. 3 }

abbrev reflecting : Reflecting Fixed
reflecting = record {
  lines = λ t. t ∷ [];
  strip = λ t. t;
  is_marked = λ t. true;
  after_colon = λ t. t;
  assess = λ m w. ok (record {
    usage = record {
      input_tokens = pos 10;
      output_tokens = pos 10;
      cache_read_input_tokens = none;
      cache_creation_input_tokens = none;
    };
    content = some "tighten the stop" ∷ [];
  });
  titled = λ m now t. t;
}

latest_known : get_latest_deployed_strategy_version (some kr) with_rows ≡ some deployed_version
unfolding get_latest_deployed_strategy_version newest
latest_known = refl

proposed_run :
    (propose_candidate trial kr "tighten the stop" with_rows).0
    ≡ ok (some (candidate_row trial kr "tighten the stop" (figures 2) with_rows))
unfolding propose_candidate regressed get_latest_deployed_strategy_version newest fixed_float ◌*ℤ◌
proposed_run = refl

change_found : extract_proposed_change reflecting "없음" ≡ none
unfolding extract_proposed_change last_marked
change_found = refl

propose_candidate-IsNoWorse_example :
    (g : BacktestFigures Fixed) × ((candidate_row trial kr "tighten the stop"
        (figures 2)
        with_rows).backtest_result
      ≡ some g)
    × ((candidate_row trial kr "tighten the stop" (figures 2) with_rows).approved_by ≡ none)
    × IsNoWorse g (figures 1)
propose_candidate-IsNoWorse_example =
    propose_candidate-IsNoWorse trial kr "tighten the stop" with_rows
      (candidate_row trial kr "tighten the stop" (figures 2) with_rows) deployed_version (figures 1)
      proposed_run latest_known refl

run_reflection-SameDeployed_example :
    SameDeployed with_rows (run_reflection exchange reflecting trial kr with_rows).1
run_reflection-SameDeployed_example =
    run_reflection-SameDeployed exchange reflecting trial kr with_rows

abbrev fresh : World Fixed → ℕ
fresh w = 3

abbrev summarised : String → String
summarised name = name

post_version_reject-SameDeployed_example :
    SameDeployed with_rows (post_version_reject 2 with_rows).1
post_version_reject-SameDeployed_example =
    post_version_reject-SameDeployed 2 with_rows ((refl, tt), (tt, tt))
