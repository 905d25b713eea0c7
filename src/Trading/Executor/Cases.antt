-- ===== src/Trading/Executor/Cases.antt =====
-- The ways through `execute`, as one rule: what holds of each way out holds of the call.
use toss_invest_ai.Prelude.{
  some, true, false, ◌≡◌, refl, ap, inl, inr, ◌∙◌, Bool-cases, arith, ◌≢◌, ◌⊎◌,
}
use mathlib.Core.Path.{subst⁻¹}
use toss_invest_ai.Float.{Float}
use toss_invest_ai.Models.{
  RunMode, Order, Decision, Reason, hold_no_order, TradeAction, buy, sell, hold, Error, OrderResult,
  rejected, Result, ok, err, Result-cases, to_order, GateResult,
}
use toss_invest_ai.World.{World, Exchange}
use toss_invest_ai.Safety.{check}
use toss_invest_ai.Safety.Verdict.{check_approved}
use toss_invest_ai.Safety.Approval.{Permits, check-approve_iff}
use toss_invest_ai.Trading.Executor.Fill.{Versions}
use toss_invest_ai.Trading.Executor.Execute.{
  execute, submit, refuse, run_approved, reason_of, reference_price, trade,
}

TradeAction-hold : (a : TradeAction) → (a ≡ hold) ⊎ (a ≢ hold)
TradeAction-hold hold = inl refl
TradeAction-hold buy = inr (λ e. cc)
TradeAction-hold sell = inr (λ e. cc)

module _ {F : Type 0} ⦃f : Float F⦄ (x : Exchange F) (v : Versions) (d : Decision F) (m : RunMode)
    (w : World F) where
  submit-err : (o : Order F) (e : Error) → check x o m w ≡ err e → submit x d o m v w ≡ (err e, w)
  unfolding submit
  submit-err o e h = ground arith

  pub submit-refuse :
      (o : Order F) (g : GateResult F)
      → check x o m w ≡ ok g
      → g.approved ≡ false
      → submit x d o m v w ≡ refuse x o m (reason_of x g) w
  unfolding submit
  submit-refuse o g h a = ground arith

  submit-run :
      (o : Order F) (g : GateResult F)
      → check x o m w ≡ ok g
      → g.approved ≡ true
      → submit x d o m v w ≡ run_approved x m.mode d o m v w
  unfolding submit
  submit-run o g h a = ground arith

  execute-hold : d.action ≡ hold → execute x d m v w ≡ (ok (rejected hold_no_order), w)
  unfolding execute
  execute-hold h = rw h

  pub execute-trade : d.action ≢ hold → execute x d m v w ≡ trade x d m v w
  unfolding execute
  execute-trade h = ground arith

  trade-price_err : (e : Error) → (reference_price x d w).0 ≡ err e → trade x d m v w ≡ (err e, w)
  trade-price_err e h = ground arith

  trade-order_err :
      (p : F) (e : Error)
      → (reference_price x d w).0 ≡ ok p
      → to_order d m.market (x.client_order_id m.market w) (some p) ≡ err e
      → trade x d m v w ≡ (err e, w)
  trade-order_err p e h k = ground arith

  pub trade-submit :
      (p : F) (o : Order F)
      → (reference_price x d w).0 ≡ ok p
      → to_order d m.market (x.client_order_id m.market w) (some p) ≡ ok o
      → trade x d m v w ≡ submit x d o m v w
  trade-submit p o h k = ground arith

  -- The order that the decision gives in this state.
  abbrev pub Orders : Order F → Type 0
  Orders o =
      (p : F) × ((reference_price x d w).0 ≡ ok p)
      × (to_order d m.market (x.client_order_id m.market w) (some p) ≡ ok o)

  module _ (P : Result (OrderResult F) × World F → Type 0) where
    submit-cases :
        (o : Order F)
        → ((e : Error) → P (err e, w))
        → (Permits x o m w → P (run_approved x m.mode d o m v w))
        → ((r : Reason F) → P (refuse x o m r w))
        → P (submit x d o m v w)
    submit-cases o failed ran refused = elim (Result-cases (check x o m w)) [
      | inr (e, h) ↦ subst⁻¹ P (submit-err o e h) (failed e)
      | inl (g, h) ↦ elim (Bool-cases g.approved) [
        | inl a ↦
            subst⁻¹ P (submit-run o g h a)
              (ran ((check-approve_iff x o m w).0 (h ∙ ap ok (check_approved x o m w g h a))))
        | inr a ↦ subst⁻¹ P (submit-refuse o g h a) (refused (reason_of x g))
      ]
    ]

    trade-cases :
        ((e : Error) → P (err e, w))
        → ((o : Order F) → Orders o → P (submit x d o m v w))
        → P (trade x d m v w)
    trade-cases failed submitted = elim (Result-cases ((reference_price x d w).0)) [
      | inr (e, h) ↦ subst⁻¹ P (trade-price_err e h) (failed e)
      | inl (p, h) ↦
          elim (Result-cases (to_order d m.market (x.client_order_id m.market w) (some p))) [
            | inr (e, k) ↦ subst⁻¹ P (trade-order_err p e h k) (failed e)
            | inl (o, k) ↦ subst⁻¹ P (trade-submit p o h k) (submitted o (p, h, k))
          ]
    ]

    -- What holds of each way through `execute` holds of the call.
    pub execute-cases :
        P (ok (rejected hold_no_order), w)
        → ((e : Error) → P (err e, w))
        → ((o : Order F) → Orders o → Permits x o m w → P (run_approved x m.mode d o m v w))
        → ((o : Order F) → Orders o → (r : Reason F) → P (refuse x o m r w))
        → P (execute x d m v w)
    execute-cases held failed ran refused = elim (TradeAction-hold d.action) [
      | inl h ↦ subst⁻¹ P (execute-hold h) held
      | inr h ↦
          subst⁻¹ P (execute-trade h)
            (trade-cases failed (λ o made. submit-cases o failed (ran o made) (refused o made)))
    ]
