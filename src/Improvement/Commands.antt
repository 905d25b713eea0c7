-- ===== src/Improvement/Commands.antt =====
-- The commands of core/api/routes.py on the versions of the strategies.
use toss_invest_ai.Prelude.{
  ℕ, String, not, Option, none, some, List, [], ◌∷◌, ◌++◌, nat_eq, if◌then◌else◌,
}
use toss_invest_ai.Prelude.Lists.{keep}
use toss_invest_ai.World.{World, StrategyVersion}
use toss_invest_ai.Improvement.Versions.{
  get_latest_deployed_strategy_version, get_deployed_strategy_version_by_name,
  approve_strategy_version, find_version, is_approved, with_versions,
}

pub data VersionReply : Type 0 where
  success no_such_candidate already_approved never_deployed : VersionReply

module _ {F : Type 0} where
  abbrev reply_of : Option (StrategyVersion F) × World F → VersionReply × World F
  reply_of (none, w) = (no_such_candidate, w)
  reply_of (some _, w) = (success, w)

  unfoldable pub post_version_approve : ℕ → String → World F → VersionReply × World F
  post_version_approve id by w = reply_of (approve_strategy_version id by w)

  unfoldable pub delete_version : ℕ → List (StrategyVersion F) → List (StrategyVersion F)
  delete_version id = keep (λ (v : StrategyVersion F). not (nat_eq v.id id))

  unfoldable pub post_version_reject : ℕ → World F → VersionReply × World F
  post_version_reject id w = elim (find_version id w) [
    | none ↦ (no_such_candidate, w)
    | some v ↦
        if is_approved v
        then (already_approved, w)
        else (success, with_versions (delete_version id w.database.strategy_versions) w)
  ]

  abbrev base_of : Option (StrategyVersion F) → Option String
  base_of none = none
  base_of (some v) = some v.strategy_version

  module _ (fresh_id : World F → ℕ) (summary : String → String) where
    -- The row of a roll back: the version again, deployed now.
    abbrev pub rollback_row : StrategyVersion F → String → World F → StrategyVersion F
    rollback_row target by w = record {
      id = fresh_id w;
      market = target.market;
      strategy_version = target.strategy_version;
      prompt_version = target.prompt_version;
      based_on = base_of (get_latest_deployed_strategy_version (some target.market) w);
      change_summary = summary target.strategy_version;
      backtest_result = target.backtest_result;
      approved_by = some by;
      proposed_at = w.now;
      deployed_at = some w.now;
    }

    unfoldable pub post_version_rollback : String → String → World F → VersionReply × World F
    post_version_rollback name by w = elim (get_deployed_strategy_version_by_name name w) [
      | none ↦ (never_deployed, w)
      | some target ↦ (
        success,
        with_versions (w.database.strategy_versions ++ (rollback_row target by w ∷ [])) w,
      )
    ]
