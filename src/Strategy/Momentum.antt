-- ===== src/Strategy/Momentum.antt =====
-- core/strategy/kr/momentum.py and core/strategy/us/momentum.py
use toss_invest_ai.Prelude.{String, string_equality, Bool, false, ◌||◌, Option, some, if◌then◌else◌}
use toss_invest_ai.Prelude.Int.{ℤ, pos, leb_ℤ}
use toss_invest_ai.Float.{Float, decimal, less, at_most}
use toss_invest_ai.Models.{buy, volume_breakout, Rationale, Result, ok, err}
use toss_invest_ai.Strategy.State.{
  is_held, Signal, first_signal, no_signal, make_decision, rule_quantity, is_interrupted,
}
use toss_invest_ai.Models.{PriceData, StateSnapshot}

-- The US strategy skips no symbol on this ground.
abbrev pub never : {F : Type 0} → PriceData F → Bool
never quote = false

module _ {F : Type 0} ⦃f : Float F⦄ (id : String) where
  abbrev entered_if_positive : String → Rationale F → Result ℤ → Signal F
  entered_if_positive symbol reason (err e) = err e
  entered_if_positive symbol reason (ok quantity) =
      if leb_ℤ quantity (pos 0)
      then no_signal
      else ok (some (make_decision id symbol buy quantity reason))

  -- The test argument is the reason to skip that the KR strategy has and the US strategy has not.
  abbrev breakout : Bool → String → PriceData F → F → F → F → Signal F
  breakout skipped symbol quote ratio e20 e60 =
      if less ratio (decimal 20 1) || at_most e20 e60
      then no_signal
      else (if skipped
          then no_signal
          else entered_if_positive symbol (volume_breakout ratio e20 e60)
              (rule_quantity quote.price))

  abbrev known_breakout : Bool → String → PriceData F → Option F → Option F → Option F → Signal F
  known_breakout skipped symbol quote (some ratio) (some e20) (some e60) =
      breakout skipped symbol quote ratio e20 e60
  known_breakout skipped symbol quote _ _ _ = no_signal

  abbrev pub momentum_at : (PriceData F → Bool) → StateSnapshot F → String × PriceData F → Signal F
  momentum_at skipped state (symbol, quote) =
      if is_held symbol state.holdings
      then no_signal
      else known_breakout (skipped quote) symbol quote quote.volume_ratio quote.ema_20 quote.ema_60

  unfoldable pub kr_momentum_signal : StateSnapshot F → Signal F
  kr_momentum_signal state =
      first_signal (momentum_at (is_interrupted state.market) state) state.prices

  unfoldable pub us_momentum_signal : StateSnapshot F → Signal F
  us_momentum_signal state = first_signal (momentum_at never state) state.prices
