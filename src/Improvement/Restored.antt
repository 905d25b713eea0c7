-- ===== src/Improvement/Restored.antt =====
-- The roll back and the rejection of a version, of core/api/routes.py.
use mathlib.Core.Path.{subst}
use toss_invest_ai.Prelude.{
  ℕ, String, string_equality, Bool, true, false, ◌&&◌, some, List, [], ◌∷◌, ◌≡◌, refl, ◌∙◌, ap,
  arith, ◌⊎◌, inl, inr, nat_eq, Bool-cases, Option-cases,
}
use toss_invest_ai.Prelude.Lists.{keep, find, All}
use toss_invest_ai.World.{World, StrategyVersion}
use toss_invest_ai.Simulation.{same_market}
use toss_invest_ai.Improvement.Versions.{
  with_versions, get_latest_deployed_strategy_version, newest, is_approved, is_earlier,
  find_version, in_market,
}
use toss_invest_ai.Improvement.Deployed.{SameDeployed}
use toss_invest_ai.Improvement.Commands.{post_version_reject, delete_version}

same_id : (a b : ℕ) → nat_eq a b ≡ true → a ≡ b
same_id a b h = ground (arith, h)

module _ {F : Type 0} where
  -- Every version was deployed before this time, if it was deployed at all.
  abbrev pub IsPast : ℕ → StrategyVersion F → Type 0
  IsPast now v = is_approved v ≡ true → is_earlier v.deployed_at (some now) ≡ true

  -- The version again, with the name, the prompt and the figures that it had, deployed now and
  -- approved by the one who asked.
  pub record IsRestored (target : StrategyVersion F) (by : String) (w : World F)
      (v : StrategyVersion F) : Type 0 where
    pub same_market : v.market ≡ target.market
    pub same_version : v.strategy_version ≡ target.strategy_version
    pub same_prompt : v.prompt_version ≡ target.prompt_version
    pub same_figures : v.backtest_result ≡ target.backtest_result
    pub approved : v.approved_by ≡ some by
    pub deployed : v.deployed_at ≡ some w.now

  -- No two rows have the same id.
  abbrev pub HasOwnIds : List (StrategyVersion F) → Type 0
  HasOwnIds [] = Unit
  HasOwnIds (v ∷ vs) = All (λ (u : StrategyVersion F). nat_eq u.id v.id ≡ false) vs × HasOwnIds vs

  keep_others :
      (q : StrategyVersion F → Bool) (id : ℕ) (vs : List (StrategyVersion F))
      → All (λ (u : StrategyVersion F). nat_eq u.id id ≡ false) vs
      → keep q (delete_version id vs) ≡ keep q vs
  unfolding delete_version
  keep_others q id [] h = refl
  keep_others q id (u ∷ vs) (h, hs) = ground (arith, h, keep_others q id vs hs)

  -- Dropping a row that does not pass leaves those that pass.
  dropped_row :
      (q : StrategyVersion F → Bool) (id : ℕ) (vs : List (StrategyVersion F))
      (v : StrategyVersion F)
      → HasOwnIds vs
      → find (λ (u : StrategyVersion F). nat_eq u.id id) vs ≡ some v
      → q v ≡ false
      → keep q (delete_version id vs) ≡ keep q vs
  unfolding delete_version
  dropped_row q id [] v own found h = refl
  dropped_row q id (u ∷ vs) v (here, own) found h = elim (Bool-cases (nat_eq u.id id)) [
    | inl same ↦
        let others = keep_others q id vs (
          subst (λ n. All (λ (u' : StrategyVersion F). nat_eq u'.id n ≡ false) vs)
            (same_id u.id id same) here) in
        ground (arith, found, same, h, others)
    | inr other ↦ ground (arith, other, dropped_row q id vs v own (ground (arith, found, other)) h)
  ]

  reject_effect :
      (id : ℕ) (w : World F)
      → (post_version_reject id w ≡ ((post_version_reject id w).0, w))
        ⊎ ((v : StrategyVersion F) × (find_version id w ≡ some v)
            × (is_approved v ≡ false)
            × ((post_version_reject id w).1
                ≡ with_versions (delete_version id w.database.strategy_versions) w))
  unfolding post_version_reject
  reject_effect id w = elim (Option-cases (find_version id w)) [
    | inl missing ↦ inl (ground (arith, missing))
    | inr (v, found) ↦ elim (Bool-cases (is_approved v)) [
      | inl approved ↦ inl (ground (arith, found, approved))
      | inr pending ↦ inr (v, found, pending, ground (arith, found, pending))
    ]
  ]

  -- If no two rows have the same id, the rejection of a version, granted or refused, leaves the
  -- deployed version of each market, and of both, as it was.
  pub post_version_reject-SameDeployed :
      (id : ℕ) (w : World F)
      → HasOwnIds w.database.strategy_versions
      → SameDeployed w (post_version_reject id w).1
  unfolding get_latest_deployed_strategy_version find_version
  post_version_reject-SameDeployed id w own m = elim (reject_effect id w) [
    | inl same ↦ ap (λ r. get_latest_deployed_strategy_version m r.1) same
    | inr (v, found, pending, dropped) ↦
        ap (get_latest_deployed_strategy_version m) dropped
        ∙ ap newest (
            dropped_row (λ (u : StrategyVersion F). is_approved u && in_market m u.market) id
              w.database.strategy_versions v own found (ground (arith, pending)))
  ]
