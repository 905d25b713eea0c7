-- ===== src/Trading/Executor/Isolation.antt =====
-- The real and the virtual side of the executor stay apart, whatever the outcome of a call.
use toss_invest_ai.Prelude.{Option, ◌≡◌, ◌≢◌, refl, arith, inl, inr}
use toss_invest_ai.Prelude.Int.{ℤ}
use toss_invest_ai.Float.{Float, ◌⊗◌, of_int}
use toss_invest_ai.Models.{
  Market, OrderId, virtual_id, Result-cases, live, simulation, dry_run, Mode, RunMode, Decision,
  Order, Reason,
}
use toss_invest_ai.World.{World, Exchange}
use toss_invest_ai.Store.{kst_date}
use toss_invest_ai.Toss.Order.{place}
use toss_invest_ai.Simulation.{apply_buy, apply_sell}
use toss_invest_ai.Trading.Executor.Records.{handle_rejection, commission_krw}
use toss_invest_ai.Trading.Executor.Fill.{
  fill_in_portfolio, record_virtual, virtual_outcome, virtual_fill_price, execute_live,
  execute_simulation, get_simulation_portfolio, buy_in_portfolio, sell_in_portfolio, Versions,
}
use toss_invest_ai.Trading.Executor.Cases.{execute-cases}
use toss_invest_ai.Trading.Executor.Execute.{execute, refuse, run_approved}

module _ {F : Type 0} where
  -- Nothing of the virtual side has changed.
  pub record SameVirtual (w w' : World F) : Type 0 where
    pub memory : w'.memory ≡ w.memory
    pub positions : w'.database.simulation_positions ≡ w.database.simulation_positions
    pub trades : w'.database.simulation_trades ≡ w.database.simulation_trades

  -- Nothing of the real side has changed.
  pub record SameReal (w w' : World F) : Type 0 where
    pub placed : w'.placed ≡ w.placed
    pub trades : w'.database.trades ≡ w.database.trades
    pub orders : w'.database.orders ≡ w.database.orders

module _ {F : Type 0} ⦃f : Float F⦄ (x : Exchange F) (v : Versions) where
  pub refl_virtual : (w : World F) → SameVirtual w w
  refl_virtual w = ground arith

  pub refl_real : (w : World F) → SameReal w w
  refl_real w = ground arith

  execute_live-SameVirtual :
      (d : Decision F) (o : Order F) (m : RunMode) (w : World F)
      → SameVirtual w (execute_live x d o m v w).1
  unfolding execute_live place commission_krw
  execute_live-SameVirtual d o m w = ground arith

  pub virtual_fill_price-state :
      (o : Order F) (q : Option F) (w : World F) → (virtual_fill_price x o q w).1 ≡ w
  virtual_fill_price-state o q w = ground arith

  pub commission_krw-state : (m : Market) (a : F) (w : World F) → (commission_krw x m a w).1 ≡ w
  unfolding commission_krw
  commission_krw-state m a w = ground arith

  fill_in_portfolio-SameReal :
      (o : Order F) (fill : F) (c : ℤ) (w : World F) → SameReal w (fill_in_portfolio x o fill c w).1
  unfolding get_simulation_portfolio buy_in_portfolio sell_in_portfolio apply_buy apply_sell
  fill_in_portfolio-SameReal o fill c w = ground arith

  record_virtual-SameReal :
      (d : Decision F) (o : Order F) (m : RunMode) (fill : F) (c : ℤ) (id : OrderId) (w : World F)
      → SameReal w (record_virtual x d o m v fill c id w).1
  record_virtual-SameReal d o m fill c id w =
      elim (Result-cases (fill_in_portfolio x o fill c w).0) [
        | inl (out, h) ↦ ground (arith, fill_in_portfolio-SameReal o fill c w)
        | inr (e, h) ↦ ground (arith, fill_in_portfolio-SameReal o fill c w)
      ]

  virtual_outcome-SameReal :
      (mode : Mode) (d : Decision F) (o : Order F) (m : RunMode) (fill : F) (c : ℤ) (id : OrderId)
      (w : World F)
      → SameReal w (virtual_outcome x mode d o m v fill c id w).1
  virtual_outcome-SameReal dry_run d o m fill c id w = refl_real w
  virtual_outcome-SameReal live d o m fill c id w = record_virtual-SameReal d o m fill c id w
  virtual_outcome-SameReal simulation d o m fill c id w = record_virtual-SameReal d o m fill c id w

  pub execute_simulation-SameReal :
      (d : Decision F) (o : Order F) (m : RunMode) (w : World F)
      → SameReal w (execute_simulation x d o m v w).1
  unfolding execute_simulation
  execute_simulation-SameReal d o m w = elim (Result-cases (virtual_fill_price x o o.price w).0) [
    | inr (e, h) ↦ ground (arith, virtual_fill_price-state o o.price w)
    | inl (fill, h) ↦
        elim (Result-cases (commission_krw x o.market (fill ⊗ of_int o.quantity) w).0) [
          | inr (e, h2) ↦ ground (
            arith,
            virtual_fill_price-state o o.price w,
            commission_krw-state o.market (fill ⊗ of_int o.quantity) w,
          )
          | inl (c, h2) ↦ ground (
            arith,
            virtual_fill_price-state o o.price w,
            commission_krw-state o.market (fill ⊗ of_int o.quantity) w,
            virtual_outcome-SameReal m.mode d o m fill c
                (virtual_id m.mode (kst_date w.now) o.market (x.unique_hex w)) w,
          )
        ]
  ]

  pub refuse-Same :
      (o : Order F) (m : RunMode) (r : Reason F) (w : World F)
      → SameVirtual w (refuse x o m r w).1 × SameReal w (refuse x o m r w).1
  unfolding refuse handle_rejection
  refuse-Same o m r w = ground arith

  -- In DRY_RUN the virtual side is left alone too, and nothing is logged.
  execute_simulation-dry_run :
      (d : Decision F) (o : Order F) (m : RunMode) (w : World F)
      → m.mode ≡ dry_run
      → SameVirtual w (execute_simulation x d o m v w).1
        × ((execute_simulation x d o m v w).1.trade_log ≡ w.trade_log)
  unfolding execute_simulation commission_krw
  execute_simulation-dry_run d o m w h = ground arith

  pub refuse-untouched :
      (o : Order F) (m : RunMode) (r : Reason F) (w : World F)
      → let w' = (refuse x o m r w).1 in
        SameVirtual w w' × SameReal w w' × (w'.trade_log ≡ w.trade_log)
  unfolding refuse handle_rejection
  refuse-untouched o m r w = ground arith

  run_approved-SameVirtual :
      (d : Decision F) (o : Order F) (m : RunMode) (w : World F)
      → m.mode ≡ live
      → SameVirtual w (run_approved x m.mode d o m v w).1
  run_approved-SameVirtual d o m w h = ground (arith, execute_live-SameVirtual d o m w)

  run_approved-SameReal :
      (d : Decision F) (o : Order F) (m : RunMode) (w : World F)
      → m.mode ≢ live
      → SameReal w (run_approved x m.mode d o m v w).1
  run_approved-SameReal d o m w h = ground (arith, execute_simulation-SameReal d o m w)

  run_approved-dry_run :
      (d : Decision F) (o : Order F) (m : RunMode) (w : World F)
      → m.mode ≡ dry_run
      → let w' = (run_approved x m.mode d o m v w).1 in
        SameVirtual w w' × SameReal w w' × (w'.trade_log ≡ w.trade_log)
  run_approved-dry_run d o m w h =
      ground (arith, execute_simulation-SameReal d o m w, execute_simulation-dry_run d o m w)

  -- In LIVE mode execute leaves the virtual portfolio, in memory and in the tables, as it was,
  -- whether it fills, refuses or raises.
  pub execute-SameVirtual :
      (d : Decision F) (m : RunMode) (w : World F)
      → m.mode ≡ live
      → SameVirtual w (execute x d m v w).1
  execute-SameVirtual d m w h =
      execute-cases x v d m w (λ r. SameVirtual w r.1) (refl_virtual w) (λ e. refl_virtual w)
        (λ o _ _. run_approved-SameVirtual d o m w h) (λ o _ r. (refuse-Same o m r w).0)

  -- In SIMULATION and DRY_RUN execute sends no order to the exchange and writes no row to trades
  -- and orders, whether it fills, refuses or raises.
  pub execute-SameReal :
      (d : Decision F) (m : RunMode) (w : World F)
      → m.mode ≢ live
      → SameReal w (execute x d m v w).1
  execute-SameReal d m w h =
      execute-cases x v d m w (λ r. SameReal w r.1) (refl_real w) (λ e. refl_real w)
        (λ o _ _. run_approved-SameReal d o m w h) (λ o _ r. (refuse-Same o m r w).1)

  -- In DRY_RUN execute leaves the real and the virtual side as they were and writes nothing to the
  -- trade log.
  pub execute-dry_run :
      (d : Decision F) (m : RunMode) (w : World F)
      → m.mode ≡ dry_run
      → let w' = (execute x d m v w).1 in
        SameVirtual w w' × SameReal w w' × (w'.trade_log ≡ w.trade_log)
  execute-dry_run d m w h =
      execute-cases x v d m w
        (λ r. SameVirtual w r.1 × SameReal w r.1 × (r.1.trade_log ≡ w.trade_log))
        (refl_virtual w, refl_real w, refl) (λ e. (refl_virtual w, refl_real w, refl))
        (λ o _ _. run_approved-dry_run d o m w h) (λ o _ r. refuse-untouched o m r w)
