-- ===== src/Toss/Order.antt =====
-- `place` of core/toss/order.py. Every order that is sent is kept in `placed`, also where the reply
-- is an error.
use toss_invest_ai.Prelude.{string_equality, some, ◌∷◌, ◌==◌, if◌then◌else◌, Bool, false}
use toss_invest_ai.Models.{Order, Error, toss_api_error, Result, ok, err}
use toss_invest_ai.World.{World, Exchange, PlaceReply, Action, pure, raise}

-- `e.code != "request-in-progress"` is false.
abbrev pub in_progress : Error → Bool
in_progress (toss_api_error _ (some code)) = code == "request-in-progress"
in_progress _ = false

module _ {F : Type 0} (x : Exchange F) where
  abbrev pub send : Order F → Action F (PlaceReply F)
  send order w = (x.place order w, record w { placed = order ∷ w.placed })

  -- The same order under a new client order id.
  abbrev pub renewed : Order F → World F → Order F
  renewed order w = record order { client_order_id = x.client_order_id order.market w }

  abbrev send_again : Order F → Action F (PlaceReply F)
  send_again order w = send (renewed order w) w

  abbrev pub retry_once : Order F → Result (PlaceReply F) → Action F (PlaceReply F)
  retry_once order (ok reply) = pure reply
  retry_once order (err e) = if in_progress e then send_again order else raise e

  unfoldable pub place : Order F → Action F (PlaceReply F)
  place order w = let (r, w') = send order w in retry_once order r w'
