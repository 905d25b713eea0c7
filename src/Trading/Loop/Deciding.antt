-- ===== src/Trading/Loop/Deciding.antt =====
-- `get_decision` of core/trading/decision.py with what its calls write: the cost of a model's reply.
use toss_invest_ai.Prelude.{Option, none, some, ◌≡◌, arith, if◌then◌else◌}
use toss_invest_ai.Float.{Float}
use toss_invest_ai.Models.{Result, ok, err, Decision, StateSnapshot}
use toss_invest_ai.World.{World, Exchange, Action}
use toss_invest_ai.Strategy.{
  rule_based_filter, get_decision, constrain_to_known_symbols, falls_back, constrained,
}
use toss_invest_ai.Gateway.Json.{Python}
use toss_invest_ai.Gateway.Services.{Services, claude_decide, deepseek_decide}

module _ {F : Type 0} ⦃f : Float F⦄ (x : Exchange F) (py : Python F) (s : Services F) where
  abbrev constrained_reply :
      StateSnapshot F → Result (Decision F) × World F → Result (Decision F) × World F
  constrained_reply state (r, w) = (constrained state r, w)

  abbrev after_claude :
      StateSnapshot F → Result (Decision F) × World F → Result (Decision F) × World F
  after_claude state (ok d, w) = (ok (constrain_to_known_symbols d state), w)
  after_claude state (err e, w) =
      if falls_back e then constrained_reply state (deepseek_decide x py s state w) else (err e, w)

  abbrev decided_by : StateSnapshot F → Result (Option (Decision F)) → Action F (Decision F)
  decided_by state (err e) w = (err e, w)
  decided_by state (ok (some d)) w = (ok d, w)
  decided_by state (ok none) w = after_claude state (claude_decide x py s state w)

  unfoldable pub decide : StateSnapshot F → Action F (Decision F)
  decide state w = decided_by state (rule_based_filter (s.decision_id w) state) w

  -- Its outcome is that of get_decision with the two services as they reply in this state.
  pub decide-get_decision :
      (state : StateSnapshot F) (w : World F)
      → (decide state w).0
        ≡ get_decision
            (s.decision_id w)
            (λ q. (claude_decide x py s q w).0)
            (λ q. (deepseek_decide x py s q (claude_decide x py s state w).1).0)
            state
  unfolding decide get_decision
  decide-get_decision state w = ground arith
