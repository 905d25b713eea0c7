-- ===== src/Trading/Executor/LiveLoss.antt =====
-- The daily loss of LIVE mode: the rows of `trades` that it sums.
use toss_invest_ai.Prelude.{ℕ, none, List, [], ◌∷◌, ◌++◌, ◌≡◌, refl, arith}
use mathlib.Core.Path.{subst⁻¹}
use toss_invest_ai.Prelude.Int.{pos, ◌+ℤ◌}
use toss_invest_ai.Prelude.Lists.{All}
use toss_invest_ai.Float.{Float}
use toss_invest_ai.Models.{RunMode, Mode, live, simulation, dry_run, Order, Decision}
use toss_invest_ai.World.{World, Exchange, Trade}
use toss_invest_ai.Store.{
  get_daily_loss, get_today_realized_pnl_krw, pnl_since, sum_trades_since, today_start_utc,
}
use toss_invest_ai.Toss.Order.{place}
use toss_invest_ai.Trading.Executor.Records.{commission_krw}
use toss_invest_ai.Trading.Executor.Fill.{execute_live, execute_simulation, Versions}
use toss_invest_ai.Trading.Executor.Execute.{execute, run_approved}
use toss_invest_ai.Trading.Executor.Cases.{execute-cases}
use toss_invest_ai.Trading.Executor.Isolation.{execute_simulation-SameReal, refuse-Same}

module _ {F : Type 0} where
  abbrev pub HasNoPnl : Trade F → Type 0
  HasNoPnl t = t.pnl_krw ≡ none

  HasNoPnl-snoc :
      (ts : List (Trade F)) (t : Trade F)
      → All HasNoPnl ts
      → t.pnl_krw ≡ none
      → All HasNoPnl (ts ++ (t ∷ []))
  HasNoPnl-snoc [] t a h = (h, tt)
  HasNoPnl-snoc (u ∷ ts) t a h = (a.0, HasNoPnl-snoc ts t a.1 h)

  sum_trades_since-zero :
      (start : ℕ) (ts : List (Trade F)) → All HasNoPnl ts → sum_trades_since start ts ≡ pos 0
  unfolding sum_trades_since ◌+ℤ◌
  sum_trades_since-zero start [] a = refl
  sum_trades_since-zero start (t ∷ ts) a = ground (arith, sum_trades_since-zero start ts a.1)

  get_daily_loss-zero :
      (m : RunMode) (w : World F)
      → m.mode ≡ live
      → All HasNoPnl w.database.trades
      → get_daily_loss m w ≡ pos 0
  unfolding get_daily_loss get_today_realized_pnl_krw pnl_since
  get_daily_loss-zero m w h a =
      ground (arith, sum_trades_since-zero (today_start_utc w.now) w.database.trades a)

module _ {F : Type 0} ⦃f : Float F⦄ (x : Exchange F) (v : Versions) where
  execute_live-HasNoPnl :
      (d : Decision F) (o : Order F) (m : RunMode) (w : World F)
      → All HasNoPnl w.database.trades
      → All HasNoPnl (execute_live x d o m v w).1.database.trades
  unfolding execute_live place commission_krw
  execute_live-HasNoPnl d o m w a = grind (arith, HasNoPnl-snoc)

  execute_simulation-HasNoPnl :
      (d : Decision F) (o : Order F) (m : RunMode) (w : World F)
      → All HasNoPnl w.database.trades
      → All HasNoPnl (execute_simulation x d o m v w).1.database.trades
  execute_simulation-HasNoPnl d o m w a = rw ((execute_simulation-SameReal x v d o m w).trades) a

  run_approved-HasNoPnl :
      (mode : Mode) (d : Decision F) (o : Order F) (m : RunMode) (w : World F)
      → All HasNoPnl w.database.trades
      → All HasNoPnl (run_approved x mode d o m v w).1.database.trades
  run_approved-HasNoPnl live = execute_live-HasNoPnl
  run_approved-HasNoPnl simulation = execute_simulation-HasNoPnl
  run_approved-HasNoPnl dry_run = execute_simulation-HasNoPnl

  pub execute-HasNoPnl :
      (d : Decision F) (m : RunMode) (w : World F)
      → All HasNoPnl w.database.trades
      → All HasNoPnl (execute x d m v w).1.database.trades
  execute-HasNoPnl d m w a =
      execute-cases x v d m w (λ r. All HasNoPnl r.1.database.trades) a (λ _. a)
        (λ o _ _. run_approved-HasNoPnl m.mode d o m w a)
        (λ o _ r. rw ((refuse-Same x v o m r w).1.trades) a)

-- The states that follow one another: a call of `execute`, or anything else that writes no row to
-- `trades`, such as the passing of time.
pub data Step {F : Type 0} ⦃f : Float F⦄ (x : Exchange F) (w w' : World F) : Type 0 where
  executed :
      (d : Decision F) (m : RunMode) (v : Versions) → w' ≡ (execute x d m v w).1 → Step x w w'
  elsewhere : w'.database.trades ≡ w.database.trades → Step x w w'

pub data Reach {F : Type 0} ⦃f : Float F⦄ (x : Exchange F) (w : World F) : World F → Type 0 where
  here : Reach x w w
  next : {u t : World F} → Reach x w u → Step x u t → Reach x w t

module _ {F : Type 0} ⦃f : Float F⦄ (x : Exchange F) where
  Step-HasNoPnl :
      {w w' : World F}
      → Step x w w'
      → All HasNoPnl w.database.trades
      → All HasNoPnl w'.database.trades
  Step-HasNoPnl {w} (executed d m v e) a =
      subst⁻¹ (λ q. All HasNoPnl q.database.trades) e (execute-HasNoPnl x v d m w a)
  Step-HasNoPnl (elsewhere e) a = rw e a

  Reach-HasNoPnl :
      {w w' : World F}
      → Reach x w w'
      → All HasNoPnl w.database.trades
      → All HasNoPnl w'.database.trades
  Reach-HasNoPnl here a = a
  Reach-HasNoPnl (next r s) a = Step-HasNoPnl s (Reach-HasNoPnl r a)

  -- From a state without trades, whatever calls of execute and other steps that write no row to
  -- trades follow, the daily loss of LIVE mode is 0.
  pub Reach-get_daily_loss :
      {w w' : World F} (m : RunMode)
      → w.database.trades ≡ []
      → Reach x w w'
      → m.mode ≡ live
      → get_daily_loss m w' ≡ pos 0
  Reach-get_daily_loss {w} {w'} m empty r mode =
      get_daily_loss-zero m w' mode (Reach-HasNoPnl r (subst⁻¹ (λ ts. All HasNoPnl ts) empty tt))
