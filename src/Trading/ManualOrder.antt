-- ===== src/Trading/ManualOrder.antt =====
-- `_place_manual_order` of core/api/routes.py: a purchase or sale that a user commands.
use toss_invest_ai.Prelude.{
  String, Bool, true, false, Option, none, some, ◌≡◌, refl, ap, ◌∙◌, ◌⊎◌, inl, inr, arith,
  if◌then◌else◌,
}
use mathlib.Core.Path.{subst⁻¹}
use toss_invest_ai.Prelude.Int.{ℤ, pos, ◌<ℤ◌, leb_ℤ}
use toss_invest_ai.Float.{Float, of_int, at_most}
use toss_invest_ai.Config.{run_mode}
use toss_invest_ai.Models.{
  Market, kr, us, RunMode, TradeAction, Decision, OrderType, limit_order, market_order, low_risk,
  free_text, OrderResult,
}
use toss_invest_ai.World.{World, Exchange, Action, ◌>>=◌, pure}
use toss_invest_ai.Gateway.Texts.{is_symbol}
use toss_invest_ai.Trading.Executor.{Versions, execute}
use toss_invest_ai.Trading.Executor.Guard.{IsPermitted, Untouched, execute-guarded}
use toss_invest_ai.Trading.Executor.Isolation.{refl_virtual, refl_real}

-- The body of the request; `none` is one that is not of the form that the handler reads.
pub record OrderBody (F : Type 0) : Type 0 where
  pub symbol : String
  pub quantity : ℤ
  pub price : Option F

-- The reply: a request refused with status 400, or the result of the executor.
pub data Reply (F : Type 0) : Type 0 where
  malformed quantity_below_one price_not_positive malformed_symbol : Reply F
  answered : OrderResult F → Reply F

-- `str.isdigit`, of Python's library.
pub record Patterns : Type 0 where
  pub is_digits : String → Bool

abbrev pub manual_versions : Versions
manual_versions = ("manual", "manual")

abbrev infer_market : Patterns → String → Market
infer_market p symbol = if p.is_digits symbol then kr else us

module _ {F : Type 0} ⦃f : Float F⦄ where
  abbrev manual_type : Option F → OrderType
  manual_type none = market_order
  manual_type (some _) = limit_order

  -- `price is not None and price <= 0`
  abbrev pub bad_price : Option F → Bool
  bad_price none = false
  bad_price (some p) = at_most p (of_int (pos 0))

  abbrev pub manual_decision : String → TradeAction → OrderBody F → Decision F
  manual_decision id action body = record {
    decision_id = id;
    action = action;
    symbol = body.symbol;
    quantity = body.quantity;
    order_type = manual_type body.price;
    price = body.price;
    confidence = f.decimal 10 1;
    reason = free_text "Discord 수동 주문";
    risk_level = low_risk;
  }

  abbrev pub manual_mode : Patterns → OrderBody F → World F → RunMode
  manual_mode p body w = record { mode = run_mode w.settings; market = infer_market p body.symbol }

  -- The request is of the form that the handler accepts.
  abbrev pub IsWellFormed : OrderBody F → Type 0
  IsWellFormed body =
      (pos 0 <ℤ body.quantity) × (bad_price body.price ≡ false) × (is_symbol body.symbol ≡ true)

module _ {F : Type 0} ⦃f : Float F⦄ (x : Exchange F) (p : Patterns) (id : String)
    (action : TradeAction) where
  abbrev pub submitted : OrderBody F → Action F (Reply F)
  submitted body w =
      (do
        r ← execute x (manual_decision id action body) (manual_mode p body w) manual_versions
        pure (answered r))
        w

  unfoldable pub place_manual_order : Option (OrderBody F) → Action F (Reply F)
  place_manual_order none = pure malformed
  place_manual_order (some body) =
      if leb_ℤ body.quantity (pos 0)
      then pure quantity_below_one
      else (if bad_price body.price
          then pure price_not_positive
          else (if is_symbol body.symbol then submitted body else pure malformed_symbol))

  submitted-state :
      (body : OrderBody F) (w : World F)
      → (submitted body w).1
        ≡ (execute x (manual_decision id action body) (manual_mode p body w) manual_versions w).1
  submitted-state body w = ground arith

  place_manual_order-cases :
      (body : OrderBody F) (w : World F)
      → (IsWellFormed body × (place_manual_order (some body) w ≡ submitted body w))
        ⊎ ((place_manual_order (some body) w).1 ≡ w)
  unfolding place_manual_order
  place_manual_order-cases body w = ground arith

  -- The request was read as a well formed order, which meets every condition of the Safety Gate.
  abbrev pub IsAccepted : Option (OrderBody F) → World F → Type 0
  IsAccepted request w =
      (body : OrderBody F) × (request ≡ some body)
      × IsWellFormed body
      × IsPermitted x manual_versions (manual_decision id action body) (manual_mode p body w) w

  well_read-guarded :
      (body : OrderBody F) (w : World F)
      → (IsWellFormed body
          × IsPermitted x manual_versions (manual_decision id action body) (manual_mode p body w) w)
        ⊎ Untouched w (place_manual_order (some body) w).1
  well_read-guarded body w =
      let untouched : Untouched w w =
        (refl_virtual x manual_versions w, refl_real x manual_versions w, refl) in
      elim (place_manual_order-cases body w) [
        | inr same ↦ inr (subst⁻¹ (Untouched w) same untouched)
        | inl (formed, runs) ↦
            let state = ap (λ r. r.1) runs ∙ submitted-state body w in
            elim (execute-guarded x manual_versions (manual_decision id action body)
              (manual_mode p body w) w) [
                | inl permitted ↦ inl (formed, permitted)
                | inr kept ↦ inr (subst⁻¹ (Untouched w) state kept)
              ]
      ]

  -- Whatever the command is, malformed bodies included, the exchange, the portfolios, the tables of
  -- trades and orders and the trade log are as they were, or the body was read as an order with a
  -- positive quantity, no price or one that is not 0 or less, and a symbol of the pattern, and this
  -- order meets every condition of the Safety Gate in the state before.
  pub place_manual_order-guarded :
      (request : Option (OrderBody F)) (w : World F)
      → IsAccepted request w ⊎ Untouched w (place_manual_order request w).1
  unfolding place_manual_order
  place_manual_order-guarded none w =
      inr (refl_virtual x manual_versions w, refl_real x manual_versions w, refl)
  place_manual_order-guarded (some body) w = elim (well_read-guarded body w) [
    | inl (formed, permitted) ↦ inl (body, refl, formed, permitted)
    | inr kept ↦ inr kept
  ]
