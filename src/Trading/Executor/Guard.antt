-- ===== src/Trading/Executor/Guard.antt =====
-- No order gets around the Safety Gate, and what a refusal leaves behind.
use toss_invest_ai.Prelude.{some, true, [], ◌∷◌, ◌++◌, ◌≡◌, ◌≢◌, refl, ◌∙◌, inl, inr, ◌⊎◌}
use toss_invest_ai.Float.{Float}
use toss_invest_ai.Models.{
  RunMode, Order, Decision, Reason, hold, OrderResult, rejected, reject, ok,
}
use toss_invest_ai.World.{World, Exchange, safety_rejection}
use toss_invest_ai.Safety.{check}
use toss_invest_ai.Safety.Approval.{Permits}
use toss_invest_ai.Trading.Executor.Records.{handle_rejection}
use toss_invest_ai.Trading.Executor.Fill.{Versions}
use toss_invest_ai.Trading.Executor.Execute.{execute, refuse}
use toss_invest_ai.Trading.Executor.Cases.{
  execute-cases, Orders, execute-trade, trade-submit, submit-refuse,
}
use toss_invest_ai.Trading.Executor.Isolation.{
  SameVirtual, SameReal, refuse-untouched, refl_virtual, refl_real,
}

module _ {F : Type 0} where
  -- No order was sent or recorded, no position or trade changed, nothing was logged as a trade.
  abbrev pub Untouched : World F → World F → Type 0
  Untouched w w' = SameVirtual w w' × SameReal w w' × (w'.trade_log ≡ w.trade_log)

module _ {F : Type 0} ⦃f : Float F⦄ (x : Exchange F) (v : Versions) (d : Decision F) (m : RunMode)
    (w : World F) where
  -- The decision made an order that meets every condition of the Safety Gate in this state.
  abbrev pub IsPermitted : Type 0
  IsPermitted = (o : Order F) × Orders x v d m w o × Permits x o m w

  -- Whatever a call of execute comes to, an error included, it touches the exchange, the
  -- portfolios, the tables of trades and orders or the trade log only if the decision's order meets
  -- every condition of the Safety Gate in the state before.
  pub execute-guarded : IsPermitted ⊎ Untouched w (execute x d m v w).1
  execute-guarded =
      execute-cases x v d m w (λ r. IsPermitted ⊎ Untouched w r.1)
        (inr (refl_virtual x v w, refl_real x v w, refl))
        (λ e. inr (refl_virtual x v w, refl_real x v w, refl))
        (λ o made permits. inl (o, made, permits)) (λ o made r. inr (refuse-untouched x v o m r w))

  -- While the emergency stop is set, no call of execute touches the exchange, the portfolios, the
  -- tables of trades and orders or the trade log.
  pub execute-stopped : w.settings.emergency_stop ≡ true → Untouched w (execute x d m v w).1
  execute-stopped h = elim execute-guarded [
    | inl (o, made, permits) ↦ cc (h, permits.no_emergency)
    | inr kept ↦ kept
  ]

  -- The state after a refusal: a row, a log entry and an event, each with the reason.
  abbrev pub after_refusal : Order F → Reason F → World F
  after_refusal o r = record w {
    rejection_log = record { order = o; mode = m.mode; reason = r } ∷ w.rejection_log;
    database = record w.database {
      safety_rejections =
          w.database.safety_rejections
          ++ (record {
            symbol = o.symbol;
            market = o.market;
            reason = r;
            mode = m.mode;
            created_at = w.now;
          }
              ∷ []);
    };
    events =
        record {
          mode = m.mode;
          market = some o.market;
          payload = safety_rejection o.symbol o.action r;
          published_at = w.now;
        }
        ∷ w.events;
  }

  refuse_effect :
      (o : Order F) (r : Reason F) → refuse x o m r w ≡ (ok (rejected r), after_refusal o r)
  unfolding refuse handle_rejection
  refuse_effect o r = refl

  -- A call of execute that reports a fill was given an order that meets every condition of the
  -- Safety Gate.
  pub execute-filled :
      {r : OrderResult F} → (execute x d m v w).0 ≡ ok r → r.filled ≡ true → IsPermitted
  execute-filled {r} e filled =
      execute-cases x v d m w (λ q. q.0 ≡ ok r → IsPermitted) (λ q. cc) (λ _ q. cc)
        (λ o made permits _. (o, made, permits)) (λ o made r q. cc (refuse_effect o r)) e

  -- If the Safety Gate refuses the decision's order, execute reports the gate's reason and all that
  -- has changed is one row in safety_rejections, one entry of the error log and one event, each
  -- with that reason.
  pub execute-refused :
      (o : Order F) (r : Reason F)
      → d.action ≢ hold
      → Orders x v d m w o
      → check x o m w ≡ ok (reject r)
      → execute x d m v w ≡ (ok (rejected r), after_refusal o r)
  execute-refused o r trades (p, priced, made) refused =
      execute-trade x v d m w trades
      ∙ trade-submit x v d m w p o priced made
      ∙ submit-refuse x v d m w o (reject r) refused refl
      ∙ refuse_effect o r
