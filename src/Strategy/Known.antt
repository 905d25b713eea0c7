-- ===== src/Strategy/Known.antt =====
-- What an AI model can bring about: orders for symbols of the pass, and no others.
use toss_invest_ai.Prelude.{String, true, some, ◌≡◌, ◌≢◌, arith, ◌⊎◌}
use toss_invest_ai.Float.{Float}
use toss_invest_ai.Models.{Decision, hold, Result, ok, err}
use toss_invest_ai.Models.{StateSnapshot}
use toss_invest_ai.Strategy.Decide.{
  constrain_to_known_symbols, get_decision, rule_based_filter, is_known, ai_decision,
}

module _ {F : Type 0} where
  constrain_to_known_symbols-is_known :
      (c : Decision F) (state : StateSnapshot F)
      → let d = constrain_to_known_symbols c state in
        (d.action ≡ hold) ⊎ ((is_known state d.symbol ≡ true) × (d ≡ c))
  unfolding constrain_to_known_symbols
  constrain_to_known_symbols-is_known c state = ground arith

  -- An AI decision that is not HOLD is for a symbol of the pass.
  ai_decision-is_known :
      (a b : Result (Decision F)) (state : StateSnapshot F) (d : Decision F)
      → ai_decision a b state ≡ ok d
      → (d.action ≡ hold) ⊎ (is_known state d.symbol ≡ true)
  ai_decision-is_known (ok c) b state d h =
      ground (arith, constrain_to_known_symbols-is_known c state)
  ai_decision-is_known (err e) (ok c) state d h =
      ground (arith, constrain_to_known_symbols-is_known c state)
  ai_decision-is_known (err e) (err e') state d h = ground arith

module _ {F : Type 0} ⦃f : Float F⦄ (id : String)
    (claude deepseek : StateSnapshot F → Result (Decision F)) where
  -- Whatever the two AI services reply, a decision of get_decision that is not HOLD is the signal
  -- of a rule-based strategy or is for a symbol that the pass has prices for or that is held.
  pub get_decision-is_known :
      (state : StateSnapshot F) (d : Decision F)
      → get_decision id claude deepseek state ≡ ok d
      → d.action ≢ hold
      → (rule_based_filter id state ≡ ok (some d)) ⊎ (is_known state d.symbol ≡ true)
  unfolding get_decision
  get_decision-is_known state d h traded =
      ground (arith, ai_decision-is_known (claude state) (deepseek state) state d)
