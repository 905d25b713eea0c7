-- ===== src/Improvement/Versions.antt =====
-- The queries and writes of strategy_versions in core/db/store.py.
use toss_invest_ai.Prelude.{
  ℕ, String, string_equality, Bool, true, false, ◌&&◌, not, Option, none, some, List, [], ◌∷◌, ◌==◌,
  ltb, nat_eq, if◌then◌else◌,
}
use toss_invest_ai.Prelude.Lists.{keep, find}
use toss_invest_ai.Models.{Market}
use toss_invest_ai.World.{World, StrategyVersion}
use toss_invest_ai.Simulation.{same_market}

abbrev pub is_given : {A : Type 0} → Option A → Bool
is_given none = false
is_given (some _) = true

-- Whether the first time comes before the second; a missing one is last, as PostgreSQL sorts it.
abbrev pub is_earlier : Option ℕ → Option ℕ → Bool
is_earlier none _ = false
is_earlier (some _) none = true
is_earlier (some a) (some b) = ltb a b

abbrev pub in_market : Option Market → Market → Bool
in_market none m = true
in_market (some m') m = same_market m m'

module _ {F : Type 0} where
  -- `ORDER BY deployed_at DESC LIMIT 1`
  abbrev newer : StrategyVersion F → Option (StrategyVersion F) → Option (StrategyVersion F)
  newer v none = some v
  newer v (some u) = if is_earlier v.deployed_at u.deployed_at then some u else some v

  unfoldable pub newest : List (StrategyVersion F) → Option (StrategyVersion F)
  newest [] = none
  newest (v ∷ vs) = newer v (newest vs)

  -- `ORDER BY proposed_at DESC`
  unfoldable pub placed_by_proposal :
      StrategyVersion F → List (StrategyVersion F) → List (StrategyVersion F)
  placed_by_proposal v [] = v ∷ []
  placed_by_proposal v (u ∷ us) =
      if ltb v.proposed_at u.proposed_at then u ∷ placed_by_proposal v us else v ∷ u ∷ us

  unfoldable pub by_proposal : List (StrategyVersion F) → List (StrategyVersion F)
  by_proposal [] = []
  by_proposal (v ∷ vs) = placed_by_proposal v (by_proposal vs)

  abbrev pub is_approved : StrategyVersion F → Bool
  is_approved v = is_given v.approved_by

  unfoldable pub get_latest_deployed_strategy_version :
      Option Market → World F → Option (StrategyVersion F)
  get_latest_deployed_strategy_version market w = newest (
      keep (λ (v : StrategyVersion F). is_approved v && in_market market v.market)
        w.database.strategy_versions)

  unfoldable pub get_pending_strategy_candidates :
      Option Market → World F → List (StrategyVersion F)
  get_pending_strategy_candidates market w = by_proposal (
      keep (λ (v : StrategyVersion F). not (is_approved v) && in_market market v.market)
        w.database.strategy_versions)

  unfoldable pub get_deployed_strategy_version_by_name :
      String → World F → Option (StrategyVersion F)
  get_deployed_strategy_version_by_name name w = newest (
      keep (λ (v : StrategyVersion F). v.strategy_version == name && is_approved v)
        w.database.strategy_versions)

  abbrev pub approved : String → ℕ → StrategyVersion F → StrategyVersion F
  approved by now v = record v { approved_by = some by; deployed_at = some now }

  unfoldable pub approve_row : ℕ → String → ℕ → List (StrategyVersion F) → List (StrategyVersion F)
  approve_row id by now [] = []
  approve_row id by now (v ∷ vs) =
      if nat_eq v.id id then approved by now v ∷ vs else v ∷ approve_row id by now vs

  unfoldable pub find_version : ℕ → World F → Option (StrategyVersion F)
  find_version id w = find (λ (v : StrategyVersion F). nat_eq v.id id) w.database.strategy_versions

  abbrev pub with_versions : List (StrategyVersion F) → World F → World F
  with_versions vs w = record w { database = record w.database { strategy_versions = vs } }

  -- `none` where there is no row with this id.
  unfoldable pub approve_strategy_version :
      ℕ → String → World F → Option (StrategyVersion F) × World F
  approve_strategy_version id by w = elim (find_version id w) [
    | none ↦ (none, w)
    | some v ↦ (
      some (approved by w.now v),
      with_versions (approve_row id by w.now w.database.strategy_versions) w,
    )
  ]
