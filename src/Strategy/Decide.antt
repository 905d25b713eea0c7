-- ===== src/Strategy/Decide.antt =====
-- core/trading/decision.py. The two AI services are arguments: whatever they reply.
use toss_invest_ai.Prelude.{
  String, string_equality, Bool, true, false, ◌||◌, Option, none, some, if◌then◌else◌,
}
use toss_invest_ai.Prelude.Dict.{lookup}
use toss_invest_ai.Prelude.Int.{pos}
use toss_invest_ai.Float.{Float}
use toss_invest_ai.Models.{
  StateSnapshot, kr, us, Market, hold, Decision, market_order, high_risk, blocked_symbol, Result,
  ok, err, Error, api_status_error, api_timeout_error,
}
use toss_invest_ai.Strategy.State.{is_held, Signal, or_else}
use toss_invest_ai.Strategy.Reversion.{reversion_signal}
use toss_invest_ai.Strategy.Momentum.{kr_momentum_signal, us_momentum_signal}
use toss_invest_ai.Strategy.Overnight.{overnight_signal}

module _ {F : Type 0} ⦃f : Float F⦄ (id : String) where
  -- The strategies of a market, in their order.
  abbrev pub market_signal : Market → StateSnapshot F → Signal F
  market_signal kr state = or_else (reversion_signal id state) (kr_momentum_signal id state)
  market_signal us state = or_else (overnight_signal id state) (us_momentum_signal id state)

  unfoldable pub rule_based_filter : StateSnapshot F → Signal F
  rule_based_filter state = market_signal state.market state

abbrev pub is_some : {A : Type 0} → Option A → Bool
is_some none = false
is_some (some _) = true

-- The errors of the first service that lead to the second one.
abbrev pub falls_back : Error → Bool
falls_back api_status_error = true
falls_back api_timeout_error = true
falls_back _ = false

module _ {F : Type 0} where
  -- `symbol in state.prices or symbol in held_symbols`
  abbrev pub is_known : StateSnapshot F → String → Bool
  is_known state symbol = is_some (lookup symbol state.prices) || is_held symbol state.holdings

  abbrev blocked : Decision F → Decision F
  blocked d = record d {
    action = hold;
    quantity = pos 0;
    order_type = market_order;
    price = none;
    reason = blocked_symbol d.symbol;
    risk_level = high_risk;
  }

  unfoldable pub constrain_to_known_symbols : Decision F → StateSnapshot F → Decision F
  constrain_to_known_symbols d state = elim d.action [
    | hold ↦ d
    | _ ↦ if is_known state d.symbol then d else blocked d
  ]

  abbrev pub constrained : StateSnapshot F → Result (Decision F) → Result (Decision F)
  constrained state (ok d) = ok (constrain_to_known_symbols d state)
  constrained state (err e) = err e

  abbrev pub ai_decision :
      Result (Decision F) → Result (Decision F) → StateSnapshot F → Result (Decision F)
  ai_decision (ok d) deepseek state = ok (constrain_to_known_symbols d state)
  ai_decision (err e) deepseek state = if falls_back e then constrained state deepseek else err e

module _ {F : Type 0} ⦃f : Float F⦄ (id : String)
    (claude deepseek : StateSnapshot F → Result (Decision F)) where
  abbrev pub decided : StateSnapshot F → Signal F → Result (Decision F)
  decided state (err e) = err e
  decided state (ok (some d)) = ok d
  decided state (ok none) = ai_decision (claude state) (deepseek state) state

  unfoldable pub get_decision : StateSnapshot F → Result (Decision F)
  get_decision state = decided state (rule_based_filter id state)
