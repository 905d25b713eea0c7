-- ===== src/Trading/Loop/Guard.antt =====
-- A pass of the trading loop and the Safety Gate.
use mathlib.Core.Path.{subst}
use toss_invest_ai.Prelude.{sym, ◌∙◌, true, some, ◌≡◌, ◌≢◌, arith, ◌⊎◌, inl, inr}
use toss_invest_ai.Float.{Float}
use toss_invest_ai.Config.{run_mode}
use toss_invest_ai.Models.{Market, hold, Decision, ok, StateSnapshot}
use toss_invest_ai.World.{bind-cases, World, Exchange, ◌>>=◌}
use toss_invest_ai.Strategy.{rule_based_filter, is_known}
use toss_invest_ai.Strategy.Known.{get_decision-is_known}
use toss_invest_ai.Gateway.Services.{claude_decide, deepseek_decide}
use toss_invest_ai.Trading.Executor.{execute}
use toss_invest_ai.Trading.Executor.Guard.{Untouched, IsPermitted, execute-guarded}
use toss_invest_ai.Trading.Loop.Deciding.{decide, decide-get_decision}
use toss_invest_ai.Trading.Loop.Pass.{
  Means, build_state_snapshot, record_decision, carried_out, publish_status_update, recorded_pass,
  open_pass, run_loop,
}
use toss_invest_ai.Trading.Loop.Kept.{
  Untouched-refl, Untouched-trans, build_state_snapshot-Untouched, decide-Untouched,
  record_decision-Untouched, publish_status_update-Untouched,
}

module _ {F : Type 0} ⦃f : Float F⦄ (x : Exchange F) (p : Means F) (market : Market) where
  -- The states of a pass: with the snapshot built, with the decision made, with it recorded, and
  -- with it executed.
  abbrev pub deciding : World F → World F
  deciding w = (build_state_snapshot x p market w).1

  abbrev pub decided_in : StateSnapshot F → World F → World F
  decided_in state w = (decide x p.python p.services state (deciding w)).1

  abbrev pub executing : StateSnapshot F → Decision F → World F → World F
  executing state d w = (record_decision x p state d (decided_in state w)).1

  abbrev pub executed_in : StateSnapshot F → Decision F → World F → World F
  executed_in state d w =
      (execute x d (record { mode = run_mode w.settings; market = market })
        (state.strategy_version, state.prompt_version) w).1

  -- What the executor makes of a decision.
  abbrev pub IsAllowed : StateSnapshot F → Decision F → World F → Type 0
  IsAllowed state d w =
      (d.action ≢ hold)
      × IsPermitted x (state.strategy_version, state.prompt_version) d
          (record { mode = run_mode w.settings; market = market }) w

  -- A pass from w to w' that executed the decision made on its own snapshot.
  pub record IsChecked (w w' : World F) : Type 0 where
    pub state : StateSnapshot F
    pub decision : Decision F
    pub built : (build_state_snapshot x p market w).0 ≡ ok state
    pub decided : (decide x p.python p.services state (deciding w)).0 ≡ ok decision
    -- it comes from a rule, or is for a symbol of the pass
    pub source_known :
        (rule_based_filter (p.services.decision_id (deciding w)) state ≡ ok (some decision))
        ⊎ (is_known state decision.symbol ≡ true)
    -- nothing was traded before it
    pub untouched : Untouched w (executing state decision w)
    -- its order meets every condition of the Safety Gate
    pub allowed : IsAllowed state decision (executing state decision w)
    -- and nothing was traded after it
    pub last : Untouched (executed_in state decision (executing state decision w)) w'

  abbrev pub Outcome : World F → World F → Type 0
  Outcome w w' = IsChecked w w' ⊎ Untouched w w'

  carried_out-guarded :
      (state : StateSnapshot F) (d : Decision F) (w : World F)
      → (IsAllowed state d w × ((carried_out x p market state d w).1 ≡ executed_in state d w))
        ⊎ Untouched w (carried_out x p market state d w).1
  carried_out-guarded state d w = ground (
    arith,
    execute-guarded x (state.strategy_version, state.prompt_version) d
        (record { mode = run_mode w.settings; market = market }) w,
    Untouched-refl w,
  )

  -- A decision that was executed from one state, with nothing traded up to another.
  abbrev Executed : StateSnapshot F → Decision F → World F → World F → Type 0
  Executed state d w w' = IsAllowed state d w × Untouched (executed_in state d w) w'

  after_record-guarded :
      (state : StateSnapshot F) (d : Decision F) (w : World F)
      → Executed state d w ((carried_out x p market state d >>= λ _. publish_status_update x p) w).1
        ⊎ Untouched w ((carried_out x p market state d >>= λ _. publish_status_update x p) w).1
  after_record-guarded state d w =
      let trade = carried_out x p market state d in
      let after : Untouched (trade w).1 ((trade >>= λ _. publish_status_update x p) w).1 =
        bind-cases trade (λ _. publish_status_update x p) (Untouched (trade w).1) w
          (λ _ _. Untouched-refl (trade w).1)
          (λ _ _. publish_status_update-Untouched x p (trade w).1) in
      elim (carried_out-guarded state d w) [
        | inl (allowed, same) ↦ inl (
          allowed,
          subst (λ v. Untouched v ((trade >>= λ _. publish_status_update x p) w).1) same after,
        )
        | inr kept ↦ inr (Untouched-trans w (trade w).1 _ kept after)
      ]

  recorded_pass-guarded :
      (state : StateSnapshot F) (d : Decision F) (w : World F)
      → Executed state d (record_decision x p state d w).1 (recorded_pass x p market state d w).1
        ⊎ Untouched w (recorded_pass x p market state d w).1
  recorded_pass-guarded state d w =
      let kept = record_decision-Untouched x p state d w in
      let w' = (record_decision x p state d w).1 in
      bind-cases (record_decision x p state d)
        (λ _. carried_out x p market state d >>= λ _. publish_status_update x p)
        (λ v. Executed state d w' v ⊎ Untouched w v) w (λ _ _. inr kept)
        (λ _ _. elim (after_record-guarded state d w') [
          | inl done ↦ inl done
          | inr kept' ↦ inr (Untouched-trans w w' _ kept kept')
        ])

  checked :
      (state : StateSnapshot F) (d : Decision F) (w w' : World F)
      → (build_state_snapshot x p market w).0 ≡ ok state
      → (decide x p.python p.services state (deciding w)).0 ≡ ok d
      → Untouched w (decided_in state w)
      → Executed state d (executing state d w) w'
      → IsChecked w w'
  checked state d w w' built decided kept (allowed, last) = record {
    state = state;
    decision = d;
    built = built;
    decided = decided;
    source_known =
        get_decision-is_known (p.services.decision_id (deciding w))
          (λ q. (claude_decide x p.python p.services q (deciding w)).0)
          (λ q.
            (deepseek_decide x p.python p.services q
              (claude_decide x p.python p.services state (deciding w)).1).0)
          state d (sym (decide-get_decision x p.python p.services state (deciding w)) ∙ decided)
          allowed.0;
    untouched =
        Untouched-trans w (decided_in state w) (executing state d w) kept
          (record_decision-Untouched x p state d (decided_in state w));
    allowed = allowed;
    last = last;
  }

  decided_pass-guarded :
      (state : StateSnapshot F) (w : World F)
      → (build_state_snapshot x p market w).0 ≡ ok state
      → Untouched w (deciding w)
      → Outcome w
          ((decide x p.python p.services state >>= recorded_pass x p market state) (deciding w)).1
  decided_pass-guarded state w built kept =
      let m = decide x p.python p.services state in
      let here =
        Untouched-trans w (deciding w) (decided_in state w) kept
          (decide-Untouched x p state (deciding w)) in
      bind-cases m (recorded_pass x p market state) (Outcome w) (deciding w) (λ _ _. inr here)
        (λ d decided. elim (recorded_pass-guarded state d (decided_in state w)) [
          | inl done ↦ inl (checked state d w _ built decided here done)
          | inr kept' ↦ inr (Untouched-trans w (decided_in state w) _ here kept')
        ])

  open_pass-guarded : (w : World F) → Outcome w (open_pass x p market w).1
  open_pass-guarded w =
      let kept = build_state_snapshot-Untouched x p market w in
      bind-cases (build_state_snapshot x p market)
        (λ state. decide x p.python p.services state >>= recorded_pass x p market state) (Outcome w)
        w (λ _ _. inr kept) (λ state built. decided_pass-guarded state w built kept)

  -- Whatever a pass of the trading loop comes to, an error included: the exchange, the portfolios,
  -- the tables of trades and orders and the trade log are as they were, or the decision made on the
  -- snapshot of this pass, which is the signal of a rule-based strategy or for a symbol of the
  -- pass, was executed with nothing traded before or after it in the pass, and its order meets
  -- every condition of the Safety Gate in the state in which it was executed.
  pub run_loop-guarded : (w : World F) → Outcome w (run_loop x p market w).1
  unfolding run_loop
  run_loop-guarded w = ground (arith, open_pass-guarded w, Untouched-refl w)
