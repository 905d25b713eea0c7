-- ===== src/Simulation/Value.antt =====
-- `get_total_value` and `get_return_rate` of `SimulationPortfolio`.
use toss_invest_ai.Prelude.{String, string_equality, Option, none, some, List, [], ◌∷◌}
use toss_invest_ai.Prelude.Int.{ℤ, pos}
use toss_invest_ai.Prelude.Dict.{lookup}
use toss_invest_ai.Float.{Float, ◌⊕◌, ◌⊖◌, ◌⊗◌, of_int, divide}
use toss_invest_ai.Models.{Result, or_error, zero_division_error}
use toss_invest_ai.World.{SimPosition, SimulationPortfolio}

module _ {F : Type 0} ⦃f : Float F⦄ where
  -- `current_prices.get(sym, pos.avg_price)`
  abbrev price_or_average : SimPosition F → Option F → F
  price_or_average p none = p.avg_price
  price_or_average p (some v) = v

  unfoldable pub position_value : List (String × F) → String × SimPosition F → F
  position_value prices (symbol, p) = of_int p.qty ⊗ price_or_average p (lookup symbol prices)

  unfoldable pub holdings_value : F → List (String × F) → List (String × SimPosition F) → F
  holdings_value acc prices [] = acc
  holdings_value acc prices (h ∷ hs) = holdings_value (acc ⊕ position_value prices h) prices hs

  unfoldable pub get_total_value : SimulationPortfolio F → List (String × F) → F
  get_total_value p prices = p.cash ⊕ holdings_value (of_int (pos 0)) prices p.positions

  unfoldable pub get_return_rate : SimulationPortfolio F → ℤ → List (String × F) → Result F
  get_return_rate p seed prices =
      or_error zero_division_error (divide (get_total_value p prices ⊖ of_int seed) (of_int seed))
