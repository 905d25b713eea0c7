-- ===== src/Trading/Executor/Portfolio.antt =====
-- A fill that the Safety Gate approved, in the shared portfolio: it keeps memory and tables in step.
use toss_invest_ai.Prelude.{
  String, string_equality, some, List, [], ◌∷◌, ◌≡◌, ◌≢◌, refl, inl, inr, ◌⊎◌, arith,
}
use toss_invest_ai.Prelude.Int.{ℤ, ◌≤ℤ◌}
use toss_invest_ai.Prelude.Dict.{lookup}
use toss_invest_ai.Float.{Float}
use toss_invest_ai.Models.{RunMode, Order, ok, buy, sell, hold, simulation, TradeAction}
use toss_invest_ai.World.{World, Exchange, SimPosition, SimulationPortfolio}
use toss_invest_ai.Fund.{get_holding_quantity, virtual_holdings, find_holding, quantity_of}
use toss_invest_ai.Safety.Approval.{Permits}
use toss_invest_ai.Simulation.InSync.{InSync, KeepsNumeric, load-InSync}
use toss_invest_ai.Trading.Executor.Fill.{
  get_simulation_portfolio, buy_in_portfolio, sell_in_portfolio, fill_in_portfolio, Outcome,
}
use toss_invest_ai.Trading.Executor.FillInSync.{
  SameMarket, buy_in_portfolio-InSync, sell_in_portfolio-InSync,
}

TradeAction-cases : (a : TradeAction) → (a ≡ buy) ⊎ ((a ≡ hold) ⊎ (a ≡ sell))
TradeAction-cases buy = inl refl
TradeAction-cases hold = inr (inl refl)
TradeAction-cases sell = inr (inr refl)

module _ {F : Type 0} ⦃f : Float F⦄ where
  quantity_of-lookup :
      (s : String) (q : SimPosition F) (ps : List (String × SimPosition F))
      → lookup s ps ≡ some q
      → quantity_of (find_holding s (virtual_holdings ps)) ≡ ok q.qty
  unfolding lookup virtual_holdings
  quantity_of-lookup s q [] h = cc
  quantity_of-lookup s q ((i, r) ∷ ps) h = ground (arith, quantity_of-lookup s q ps)

module _ {F : Type 0} ⦃f : Float F⦄ (x : Exchange F) (k : KeepsNumeric x) (o : Order F)
    (w : World F) (p : SimulationPortfolio F) (s : InSync x w p) where
  held_quantity :
      (m : RunMode)
      → m.mode ≡ simulation
      → get_holding_quantity x o.symbol m.mode w
        ≡ quantity_of (find_holding o.symbol (virtual_holdings p.positions))
  unfolding get_holding_quantity
  held_quantity m mode = ground (arith, load-InSync x k s)

  -- The Safety Gate has seen that the sale is covered.
  sale_covered :
      (m : RunMode)
      → m.mode ≡ simulation
      → Permits x o m w
      → o.action ≡ sell
      → (q : SimPosition F) → lookup o.symbol p.positions ≡ some q
      → o.quantity ≤ℤ q.qty
  sale_covered m mode permits action q n = ground (
    arith,
    permits.sale_covered action,
    held_quantity m mode,
    quantity_of-lookup o.symbol q p.positions n,
  )

  get_simulation_portfolio-InSync :
      get_simulation_portfolio x w ≡ (ok p, record w { memory = some p })
  unfolding get_simulation_portfolio
  get_simulation_portfolio-InSync = elim s.held [
    | inl n ↦ ground (arith, load-InSync x k s)
    | inr h ↦ ground arith
  ]

  remembered-InSync : InSync x (record w { memory = some p }) p
  remembered-InSync = record {
    held = inr refl;
    rows = s.rows;
    once = s.once;
    positive = s.positive;
    cash = s.cash;
  }

  fill_in_portfolio-buy :
      (fill : F) (commission : ℤ)
      → o.action ≡ buy
      → fill_in_portfolio x o fill commission w
        ≡ buy_in_portfolio x p o fill commission (record w { memory = some p })
  fill_in_portfolio-buy fill commission h = ground (arith, get_simulation_portfolio-InSync)

  fill_in_portfolio-sell :
      (fill : F) (commission : ℤ)
      → o.action ≡ sell
      → fill_in_portfolio x o fill commission w
        ≡ sell_in_portfolio x p o fill commission (record w { memory = some p })
  fill_in_portfolio-sell fill commission h = ground (arith, get_simulation_portfolio-InSync)

  pub fill_in_portfolio-InSync :
      (m : RunMode) (fill : F) (commission : ℤ) {out : Outcome F}
      → m.mode ≡ simulation
      → o.action ≢ hold
      → SameMarket o p.positions
      → Permits x o m w
      → (fill_in_portfolio x o fill commission w).0 ≡ ok out
      → (p' : SimulationPortfolio F) × InSync x (fill_in_portfolio x o fill commission w).1 p'
  fill_in_portfolio-InSync m fill commission mode trades same permits e =
      elim (TradeAction-cases o.action) [
        | inl b ↦
            let same_fill = fill_in_portfolio-buy fill commission b in
            rw same_fill (
              buy_in_portfolio-InSync x k o fill commission (record w { memory = some p }) p
                remembered-InSync same b permits.quantity_positive (rw same_fill at e))
        | inr (inl h) ↦ absurd (trades h)
        | inr (inr b) ↦
            let same_fill = fill_in_portfolio-sell fill commission b in
            rw same_fill (
              sell_in_portfolio-InSync x k o fill commission (record w { memory = some p }) p
                remembered-InSync b (sale_covered m mode permits b) (rw same_fill at e))
      ]
