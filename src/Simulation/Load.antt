-- ===== src/Simulation/Load.antt =====
-- `SimulationPortfolio.load`: the state that the two tables record. The rows are read in the order
-- of their insertion.
use toss_invest_ai.Prelude.{String, string_equality, List, [], ◌∷◌}
use toss_invest_ai.Prelude.Dict.{insert}
use toss_invest_ai.Float.{Float, ◌⊕◌, ◌⊖◌, ◌⊗◌, of_int}
use toss_invest_ai.Models.{buy, ok}
use toss_invest_ai.World.{
  SimPosition, SimulationPortfolio, SimulationPosition, SimulationTrade, Query,
}

abbrev pub loaded_position : {F : Type 0} → SimulationPosition F → SimPosition F
loaded_position row = record { qty = row.quantity; avg_price = row.avg_price; market = row.market }

unfoldable pub load_positions :
    {F : Type 0}
    → List (String × SimPosition F)
    → List (SimulationPosition F)
    → List (String × SimPosition F)
load_positions acc [] = acc
load_positions acc (row ∷ rows) = load_positions (insert row.symbol (loaded_position row) acc) rows

module _ {F : Type 0} ⦃f : Float F⦄ where
  -- One row of simulation_trades, on the cash so far.
  abbrev pub replay_trade : F → SimulationTrade F → F
  replay_trade cash t =
      let notional = t.fill_price ⊗ of_int t.quantity in
      elim t.action [
        | buy ↦ cash ⊖ (notional ⊕ of_int t.commission_krw)
        | _ ↦ cash ⊕ (notional ⊖ of_int t.commission_krw)
      ]

  unfoldable pub load_cash : F → List (SimulationTrade F) → F
  load_cash cash [] = cash
  load_cash cash (t ∷ ts) = load_cash (replay_trade cash t) ts

  unfoldable pub load : Query F (SimulationPortfolio F)
  load w = ok (record {
    cash = load_cash (of_int w.settings.initial_seed_krw) w.database.simulation_trades;
    positions = load_positions [] w.database.simulation_positions;
  })
