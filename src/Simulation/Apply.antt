-- ===== src/Simulation/Apply.antt =====
-- `apply_buy` and `apply_sell` of `SimulationPortfolio`, with their writes to the table
-- simulation_positions (`upsert` and `delete` of core/db/store.py).
use toss_invest_ai.Prelude.{
  String, Bool, true, false, ◌&&◌, not, Option, none, some, List, [], ◌∷◌, ◌==◌, string_equality,
  if◌then◌else◌,
}
use toss_invest_ai.Prelude.Int.{ℤ, ◌+ℤ◌, ◌-ℤ◌, eq_ℤ}
use toss_invest_ai.Prelude.Lists.{keep}
use toss_invest_ai.Prelude.Dict.{lookup, insert, erase}
use toss_invest_ai.Float.{Float, ◌⊕◌, ◌⊖◌, ◌⊗◌, of_int, divide}
use toss_invest_ai.Models.{Market, kr, us, or_error, zero_division_error, key_error}
use toss_invest_ai.World.{
  SimPosition, SimulationPortfolio, SimulationPosition, Exchange, Action, pure, lift, modify,
  with_database, ◌>>=◌, ◌>>◌,
}

abbrev pub same_market : Market → Market → Bool
same_market kr kr = true
same_market us us = true
same_market _ _ = false

module _ {F : Type 0} where
  -- The rows conflict on (symbol, market); a conflict rewrites the other two columns.
  unfoldable pub upsert_position :
      SimulationPosition F → List (SimulationPosition F) → List (SimulationPosition F)
  upsert_position row [] = row ∷ []
  upsert_position row (r ∷ rows) =
      if r.symbol == row.symbol && same_market r.market row.market
      then record r { quantity = row.quantity; avg_price = row.avg_price } ∷ rows
      else r ∷ upsert_position row rows

  unfoldable pub delete_positions :
      String → List (SimulationPosition F) → List (SimulationPosition F)
  delete_positions symbol rows = keep (λ r. not (r.symbol == symbol)) rows

  abbrev pub set_memory : SimulationPortfolio F → Action F (Unit {0})
  set_memory p = modify λ w. record w { memory = some p }

  abbrev pub delete : String → Action F (Unit {0})
  delete symbol =
      with_database
        λ db. record db { simulation_positions = delete_positions symbol db.simulation_positions }

module _ {F : Type 0} (x : Exchange F) where
  abbrev pub row_of : String → SimPosition F → SimulationPosition F
  row_of symbol pos = record {
    symbol = symbol;
    market = pos.market;
    quantity = pos.qty;
    avg_price = x.numeric_column pos.avg_price;
  }

  abbrev pub upsert : String → SimPosition F → Action F (Unit {0})
  upsert symbol pos = with_database λ db. record db {
    simulation_positions = upsert_position (row_of symbol pos) db.simulation_positions;
  }

module _ {F : Type 0} ⦃f : Float F⦄ where
  abbrev averaged : SimPosition F → ℤ → F → Market → Option F → Option (SimPosition F)
  averaged old qty fill market none = none
  averaged old qty fill market (some avg) =
      some (record { qty = old.qty +ℤ qty; avg_price = avg; market = market })

  -- The position after a purchase; `none` is the division by a total quantity of zero.
  unfoldable pub bought : Option (SimPosition F) → ℤ → F → Market → Option (SimPosition F)
  bought none qty fill market = some (record { qty = qty; avg_price = fill; market = market })
  bought (some old) qty fill market =
      let value = of_int old.qty ⊗ old.avg_price ⊕ of_int qty ⊗ fill in
      averaged old qty fill market (divide value (of_int (old.qty +ℤ qty)))

  abbrev pub sold : SimPosition F → ℤ → SimPosition F
  sold pos qty = record pos { qty = pos.qty -ℤ qty }

module _ {F : Type 0} ⦃f : Float F⦄ (x : Exchange F) where
  unfoldable pub apply_buy :
      SimulationPortfolio F → String → ℤ → F → ℤ → Market → Action F (Unit {0})
  apply_buy p symbol qty fill commission market = do
    let paid = record p { cash = p.cash ⊖ (fill ⊗ of_int qty ⊕ of_int commission) }
    set_memory paid
    pos ← lift (or_error zero_division_error (bought (lookup symbol p.positions) qty fill market))
    set_memory (record paid { positions = insert symbol pos p.positions })
    upsert x symbol pos

  -- All shares are sold: the position is deleted.
  abbrev close_position : SimulationPortfolio F → String → Action F (Unit {0})
  close_position paid symbol = do
    set_memory (record paid { positions = erase symbol paid.positions })
    delete symbol

  abbrev reduce_position : SimulationPortfolio F → String → SimPosition F → Action F (Unit {0})
  reduce_position paid symbol left = do
    set_memory (record paid { positions = insert symbol left paid.positions })
    upsert x symbol left

  -- The profit that the sale realises is its result.
  unfoldable pub apply_sell : SimulationPortfolio F → String → ℤ → F → ℤ → Action F F
  apply_sell p symbol qty fill commission = do
    pos ← lift (or_error key_error (lookup symbol p.positions))
    let paid = record p { cash = p.cash ⊕ (fill ⊗ of_int qty ⊖ of_int commission) }
    if eq_ℤ pos.qty qty
        then close_position paid symbol
        else reduce_position paid symbol (sold pos qty)
    pure ((fill ⊖ pos.avg_price) ⊗ of_int qty ⊖ of_int commission)
