-- ===== src/Fund/Holdings.antt =====
-- The holdings and the cash of a mode, and their value in KRW.
use toss_invest_ai.Prelude.{String, string_equality, Option, none, some, List, [], ◌∷◌, ◌==◌}
use toss_invest_ai.Prelude.Int.{ℤ, pos}
use toss_invest_ai.Prelude.Lists.{find}
use toss_invest_ai.Float.{Float, ◌⊕◌, ◌⊗◌, of_int}
use toss_invest_ai.Models.{
  Market, kr, us, Mode, live, Result, ok, shares, number_of, int_of_quantity,
}
use toss_invest_ai.World.{Exchange, Holding, SimPosition, Query}
use toss_invest_ai.World.Queries.{◌>>=◌, return, given}
use toss_invest_ai.Simulation.{load}

module _ {F : Type 0} where
  unfoldable pub virtual_holdings : List (String × SimPosition F) → List (Holding F)
  virtual_holdings [] = []
  virtual_holdings ((s, p) ∷ ps) =
      record {
        symbol = s;
        market = p.market;
        quantity = shares p.qty;
        avg_price = some p.avg_price;
      }
      ∷ virtual_holdings ps

  abbrev pub find_holding : String → List (Holding F) → Option (Holding F)
  find_holding symbol = find (λ (h : Holding F). h.symbol == symbol)

  -- `int(holding["quantity"]) if holding else 0`
  abbrev pub quantity_of : ⦃f : Float F⦄ → Option (Holding F) → Result ℤ
  quantity_of none = ok (pos 0)
  quantity_of (some h) = int_of_quantity h.quantity

module _ {F : Type 0} ⦃f : Float F⦄ (x : Exchange F) where
  abbrev virtual : Query F (List (Holding F) × F)
  virtual = do p ← load; return (virtual_holdings p.positions, p.cash)

  abbrev real : Query F (List (Holding F) × F)
  real = do holdings ← x.holdings; cash ← x.buying_power; return (holdings, cash)

  unfoldable pub load_holdings_and_cash : Mode → Query F (List (Holding F) × F)
  unfolding load
  load_holdings_and_cash live = real
  load_holdings_and_cash _ = virtual

  -- `value *= exchange_rate` for a US stock.
  abbrev pub value_of : Market → F → F → F
  value_of kr rate value = value
  value_of us rate value = value ⊗ rate

  -- The exchange rate is asked for only where the stock is of the US market.
  abbrev converted : Market → F → Query F F
  converted kr value = return value
  converted us value = do rate ← x.exchange_rate; return (value ⊗ rate)

  unfoldable pub get_position_value_krw : String → Mode → Query F F
  get_position_value_krw symbol mode = do
    (holdings, _) ← load_holdings_and_cash mode
    elim (find_holding symbol holdings) [
      | none ↦ return (of_int (pos 0))
      | some h ↦ do price ← x.price symbol; converted h.market (number_of h.quantity ⊗ price)
    ]

  unfoldable pub add_holdings : F → F → List (Holding F) → Query F F
  add_holdings rate total [] w = ok total
  add_holdings rate total (h ∷ hs) w =
      (do
        price ← x.price h.symbol
        add_holdings rate (total ⊕ value_of h.market rate (number_of h.quantity ⊗ price)) hs)
        w

  unfoldable pub get_holdings_value_krw : List (Holding F) → Query F F
  get_holdings_value_krw holdings = do
    rate ← x.exchange_rate
    add_holdings rate (of_int (pos 0)) holdings

  unfoldable pub get_total_value_krw : Mode → Query F F
  get_total_value_krw mode = do
    (holdings, cash) ← load_holdings_and_cash mode
    value ← get_holdings_value_krw holdings
    return (value ⊕ cash)

  abbrev virtual_quantity : String → Query F ℤ
  virtual_quantity symbol = do
    (holdings, _) ← virtual
    given (quantity_of (find_holding symbol holdings))

  -- The quantity that can be sold.
  unfoldable pub get_holding_quantity : String → Mode → Query F ℤ
  get_holding_quantity symbol live = x.sellable_quantity symbol
  get_holding_quantity symbol _ = virtual_quantity symbol
