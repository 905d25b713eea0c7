-- ===== src/Strategy/Reversion.antt =====
-- core/strategy/kr/mean_reversion.py
use toss_invest_ai.Prelude.{String, string_equality, Option, none, some, [], if◌then◌else◌}
use toss_invest_ai.Prelude.Int.{ℤ, pos, leb_ℤ}
use toss_invest_ai.Prelude.Dict.{lookup}
use toss_invest_ai.Float.{Float, of_int, less}
use toss_invest_ai.Models.{buy, sell, overbought, oversold, Result, ok, err, ◌>>=◌, int_of_quantity}
use toss_invest_ai.Strategy.State.{
  by_symbol, Signal, first_signal, no_signal, make_decision, rule_quantity, is_interrupted,
}
use toss_invest_ai.Models.{PriceData, StateHolding, StateSnapshot}

module _ {F : Type 0} ⦃f : Float F⦄ (id : String) where
  -- make_decision takes an int; KR shares, which this strategy trades in, are not divided.
  abbrev reversion_sale : String → F → StateHolding F → Signal F
  reversion_sale symbol rsi h =
      if less (of_int (pos 75)) rsi
      then (int_of_quantity h.quantity >>= λ quantity.
          ok (some (make_decision id symbol sell quantity (overbought rsi))))
      else no_signal

  abbrev bought_if_positive : String → F → Result ℤ → Signal F
  bought_if_positive symbol rsi (err e) = err e
  bought_if_positive symbol rsi (ok quantity) =
      if leb_ℤ quantity (pos 0)
      then no_signal
      else ok (some (make_decision id symbol buy quantity (oversold rsi)))

  abbrev reversion_purchase : StateSnapshot F → String → PriceData F → F → Signal F
  reversion_purchase state symbol quote rsi =
      if less rsi (of_int (pos 28))
      then (if is_interrupted state.market quote
          then no_signal
          else bought_if_positive symbol rsi (rule_quantity quote.price))
      else no_signal

  abbrev pub reversion_of :
      StateSnapshot F → String → PriceData F → Option F → Option (StateHolding F) → Signal F
  reversion_of state symbol quote none held = no_signal
  reversion_of state symbol quote (some rsi) (some h) = reversion_sale symbol rsi h
  reversion_of state symbol quote (some rsi) none = reversion_purchase state symbol quote rsi

  abbrev pub reversion_at : StateSnapshot F → String × PriceData F → Signal F
  reversion_at state (symbol, quote) =
      reversion_of state symbol quote quote.rsi_14 (lookup symbol (by_symbol [] state.holdings))

  unfoldable pub reversion_signal : StateSnapshot F → Signal F
  reversion_signal state = first_signal (reversion_at state) state.prices
