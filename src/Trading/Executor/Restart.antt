-- ===== src/Trading/Executor/Restart.antt =====
-- An order filled in SIMULATION keeps the process and the database in step, so that a restart of
-- the process loses nothing.
use toss_invest_ai.Prelude.{
  String, string_equality, Option, some, ◌≡◌, ◌≢◌, sym, ◌∙◌, ◌⊎◌, inl, inr, arith, none,
}
use toss_invest_ai.Prelude.Int.{ℤ}
use toss_invest_ai.Prelude.Dict.{lookup}
use toss_invest_ai.Float.{Float, ◌⊗◌, of_int}
use toss_invest_ai.Models.{
  RunMode, Order, Decision, OrderResult, ok, hold, Market, simulation, to_order, Result-cases,
  Reason,
}
use toss_invest_ai.World.{World, Exchange, SimPosition, SimulationPortfolio}
use toss_invest_ai.Safety.Approval.{Permits}
use toss_invest_ai.Trading.Executor.Isolation.{virtual_fill_price-state, commission_krw-state}
use toss_invest_ai.Simulation.InSync.{InSync, KeepsNumeric, load-InSync}
use toss_invest_ai.Simulation.{load}
use toss_invest_ai.Trading.Executor.Records.{commission_krw, handle_rejection}
use toss_invest_ai.Trading.Executor.Execute.{execute, refuse, run_approved}
use toss_invest_ai.Trading.Executor.Cases.{execute-cases, Orders}
use toss_invest_ai.Trading.Executor.Fill.{
  fill_in_portfolio, execute_simulation, virtual_fill_price, Outcome, Versions,
}
use toss_invest_ai.Trading.Executor.FillInSync.{SameMarket}
use toss_invest_ai.Trading.Executor.Portfolio.{fill_in_portfolio-InSync}

module _ {F : Type 0} where
  -- The two states agree on the virtual side.
  record SameBooks (a b : World F) : Type 0 where
    memory : b.memory ≡ a.memory
    positions : b.database.simulation_positions ≡ a.database.simulation_positions
    trades : b.database.simulation_trades ≡ a.database.simulation_trades
    seed : b.settings.initial_seed_krw ≡ a.settings.initial_seed_krw

module _ {F : Type 0} ⦃f : Float F⦄ (x : Exchange F) where
  SameBooks-InSync :
      {a b : World F} {p : SimulationPortfolio F} → SameBooks a b → InSync x a p → InSync x b p
  SameBooks-InSync t s = record {
    held = ground (arith, s.held);
    rows = t.positions ∙ s.rows;
    once = s.once;
    positive = s.positive;
    cash = rw (t.trades, t.seed) s.cash;
  }

  -- Apart from the log and the event a fill in SIMULATION is that of the portfolio.
  execute_simulation-fill :
      (v : Versions) (d : Decision F) (o : Order F) (m : RunMode) (w : World F) {r : OrderResult F}
      → m.mode ≡ simulation
      → (execute_simulation x d o m v w).0 ≡ ok r
      → (fill : F) × (c : ℤ) × (out : Outcome F) × ((fill_in_portfolio x o fill c w).0 ≡ ok out)
        × SameBooks (fill_in_portfolio x o fill c w).1 (execute_simulation x d o m v w).1
  unfolding execute_simulation
  execute_simulation-fill v d o m w mode e =
      elim (Result-cases (virtual_fill_price x o o.price w).0) [
        | inr (e1, h1) ↦ ground (arith, virtual_fill_price-state x v o o.price w)
        | inl (fill, h1) ↦
            elim (Result-cases (commission_krw x o.market (fill ⊗ of_int o.quantity) w).0) [
              | inr (e2, h2) ↦ ground (arith, virtual_fill_price-state x v o o.price w)
              | inl (c, h2) ↦ elim (Result-cases (fill_in_portfolio x o fill c w).0) [
                | inr (e3, h3) ↦ ground (
                  arith,
                  virtual_fill_price-state x v o o.price w,
                  commission_krw-state x v o.market (fill ⊗ of_int o.quantity) w,
                )
                | inl (out, h3) ↦ (
                  fill,
                  c,
                  out,
                  h3,
                  ground (
                    arith,
                    virtual_fill_price-state x v o o.price w,
                    commission_krw-state x v o.market (fill ⊗ of_int o.quantity) w,
                  ),
                )
              ]
            ]
      ]

  to_order_fields :
      (d : Decision F) (m : Market) (id : String) (p : Option F) (o : Order F)
      → to_order d m id p ≡ ok o
      → (o.symbol ≡ d.symbol) × (o.market ≡ m) × (o.action ≢ hold)
  unfolding to_order
  to_order_fields d m id p o h = ground arith

  refuse-SameBooks :
      (o : Order F) (m : RunMode) (r : Reason F) (w : World F) → SameBooks w (refuse x o m r w).1
  unfolding refuse handle_rejection
  refuse-SameBooks o m r w = ground arith

module _ {F : Type 0} ⦃f : Float F⦄ (x : Exchange F) (k : KeepsNumeric x) (v : Versions)
    (d : Decision F) (m : RunMode) (w : World F) (p : SimulationPortfolio F) where
  run_approved-simulation :
      (o : Order F)
      → m.mode ≡ simulation
      → run_approved x m.mode d o m v w ≡ execute_simulation x d o m v w
  run_approved-simulation o mode = ground arith

  filled :
      {r : OrderResult F} (o : Order F)
      → InSync x w p
      → m.mode ≡ simulation
      → ((old : SimPosition F) → lookup d.symbol p.positions ≡ some old → old.market ≡ m.market)
      → Orders x v d m w o
      → Permits x o m w
      → (run_approved x m.mode d o m v w).0 ≡ ok r
      → (p' : SimulationPortfolio F) × InSync x (run_approved x m.mode d o m v w).1 p'
  filled o s mode same (price, priced, made) permits h =
      let (symbol, market, action) = to_order_fields x d m.market _ (some price) o made in
      let agrees : SameMarket o p.positions = λ old e. same old (rw symbol at e) ∙ sym market in
      let virtual = run_approved-simulation o mode in
      let (fill, c, out, done, books) =
        execute_simulation-fill x v d o m w mode (rw virtual at h) in
      let (p', s') =
        fill_in_portfolio-InSync x k o w p s m fill c mode action agrees permits done in
      rw virtual (p', SameBooks-InSync x books s')

  -- If a Numeric column keeps a float and the symbol, where held, is held in the order's market,
  -- then a call in SIMULATION mode that returns leaves the portfolio in memory and the simulation
  -- tables in step, with every quantity positive.
  pub execute-InSync :
      {r : OrderResult F}
      → InSync x w p
      → m.mode ≡ simulation
      → ((old : SimPosition F) → lookup d.symbol p.positions ≡ some old → old.market ≡ m.market)
      → (execute x d m v w).0 ≡ ok r
      → (p' : SimulationPortfolio F) × InSync x (execute x d m v w).1 p'
  execute-InSync {r} s mode same e =
      execute-cases x v d m w (λ q. q.0 ≡ ok r → (p' : SimulationPortfolio F) × InSync x q.1 p')
        (λ _. (p, s)) (λ _ h. (p, s)) (λ o made permits h. filled o s mode same made permits h)
        (λ o made reason h. (p, SameBooks-InSync x (refuse-SameBooks x o m reason w) s)) e

  -- If a Numeric column keeps a float, the portfolio in memory and the tables are in step, and the
  -- symbol, where held, is held in the order's market, then after a call in SIMULATION mode that
  -- returns, load reads a portfolio from the tables, and the process holds that one in memory or
  -- none.
  pub execute-reloads :
      {r : OrderResult F}
      → InSync x w p
      → m.mode ≡ simulation
      → ((old : SimPosition F) → lookup d.symbol p.positions ≡ some old → old.market ≡ m.market)
      → (execute x d m v w).0 ≡ ok r
      → (p' : SimulationPortfolio F) × (load (execute x d m v w).1 ≡ ok p')
        × (((execute x d m v w).1.memory ≡ none) ⊎ ((execute x d m v w).1.memory ≡ some p'))
  execute-reloads s mode same e =
      let (p', s') = execute-InSync s mode same e in (p', load-InSync x k s', s'.held)
