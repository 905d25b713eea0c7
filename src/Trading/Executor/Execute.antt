-- ===== src/Trading/Executor/Execute.antt =====
-- `execute`: the entry of every order, of the trading loop and of a manual command.
use toss_invest_ai.Prelude.{String, none, some, if◌then◌else◌}
use toss_invest_ai.Float.{Float}
use toss_invest_ai.Models.{
  Mode, live, RunMode, hold, Order, Decision, GateResult, Reason, hold_no_order, unknown_reason,
  OrderResult, rejected, to_order, Result,
}
use toss_invest_ai.World.{Exchange, Action, pure, query, lift, ◌>>=◌, ◌>>◌}
use toss_invest_ai.Safety.{check}
use toss_invest_ai.Trading.Executor.Records.{handle_rejection}
use toss_invest_ai.Trading.Executor.Fill.{execute_live, execute_simulation, Versions}

module _ {F : Type 0} ⦃f : Float F⦄ (x : Exchange F) where
  -- The decision's price, or the current one.
  abbrev pub reference_price : Decision F → Action F F
  reference_price d = elim d.price [ some p ↦ pure p | none ↦ query (x.price d.symbol) ]

  -- `gate_result.reason or "알 수 없는 사유"`
  abbrev pub reason_of : GateResult F → Reason F
  reason_of g = elim g.reason [ some r ↦ r | none ↦ unknown_reason ]

  unfoldable pub refuse : Order F → RunMode → Reason F → Action F (OrderResult F)
  refuse order mode reason = do handle_rejection order mode reason; pure (rejected reason)

  abbrev pub run_approved :
      Mode → Decision F → Order F → RunMode → Versions → Action F (OrderResult F)
  run_approved live d order mode versions = execute_live x d order mode versions
  run_approved _ d order mode versions = execute_simulation x d order mode versions

  unfoldable pub submit : Decision F → Order F → RunMode → Versions → Action F (OrderResult F)
  submit d order mode versions = do
    gate ← query (check x order mode)
    if gate.approved
        then run_approved mode.mode d order mode versions
        else refuse order mode (reason_of gate)

  abbrev pub new_client_order_id : RunMode → Action F String
  new_client_order_id mode = query (λ w. Result.ok (x.client_order_id mode.market w))

  abbrev pub trade : Decision F → RunMode → Versions → Action F (OrderResult F)
  trade d mode versions = do
    id ← new_client_order_id mode
    price ← reference_price d
    order ← lift (to_order d mode.market id (some price))
    submit d order mode versions

  unfoldable pub execute : Decision F → RunMode → Versions → Action F (OrderResult F)
  execute d mode versions = elim d.action [
    | hold ↦ pure (rejected hold_no_order)
    | _ ↦ trade d mode versions
  ]
