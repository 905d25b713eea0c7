-- ===== src/Safety/Gate.antt =====
-- `SafetyGate.check`, from the last condition to the first: each function is the rest of the check
-- from its condition on.
use toss_invest_ai.Prelude.{Bool, true, false, not, ◌&&◌, ◌||◌, if◌then◌else◌}
use toss_invest_ai.Prelude.Int.{pos, ltb_ℤ, leb_ℤ}
use toss_invest_ai.Float.{Float, ◌⊗◌, of_int, decimal, less}
use toss_invest_ai.Models.{
  Market, kr, us, RunMode, TradeAction, sell, amount_order, OrderType, Order, GateResult, approve,
  reject, Reason, not_positive, emergency_stop_active, kr_stop_active, us_stop_active,
  daily_loss_exceeded, position_ratio_exceeded, sellable_exceeded, order_amount_exceeded,
  cash_buffer_short, restricted_symbol, market_closed, regular_session_only, duplicate_order_id,
  high_risk_limit_exceeded, ok,
}
use toss_invest_ai.World.{Exchange, Query}
use toss_invest_ai.World.Queries.{◌>>=◌, return}
use toss_invest_ai.Store.{get_daily_loss, order_id_exists, has_high_risk_event_today}
use toss_invest_ai.Fund.{get_position_ratio, get_cash_buffer_krw, get_holding_quantity}

abbrev pub is_kr : Market → Bool
is_kr kr = true
is_kr us = false

abbrev pub is_us : Market → Bool
is_us us = true
is_us kr = false

abbrev pub is_sell : TradeAction → Bool
is_sell sell = true
is_sell _ = false

abbrev pub is_amount : OrderType → Bool
is_amount amount_order = true
is_amount _ = false

module _ {F : Type 0} where
  -- A guard with its early return.
  abbrev pub refuse_if : Bool → Reason F → Query F (GateResult F) → Query F (GateResult F)
  refuse_if test reason rest w = if test then ok (reject reason) else rest w

  -- A condition that is tested only where it applies.
  abbrev pub where_applies :
      Bool
      → (Query F (GateResult F) → Query F (GateResult F))
      → Query F (GateResult F)
      → Query F (GateResult F)
  where_applies true condition rest = condition rest
  where_applies false condition rest = rest

module _ {F : Type 0} ⦃f : Float F⦄ (x : Exchange F) (order : Order F) where
  -- 12. On the day of a high-risk event the limit is halved.
  unfoldable pub check_event : Query F (GateResult F)
  check_event w =
      let limit = of_int w.settings.max_single_order_krw ⊗ decimal 5 1 in
      refuse_if (has_high_risk_event_today w && less limit (of_int order.amount_krw))
        (high_risk_limit_exceeded limit) (return approve) w

  -- 11. The order id is new.
  unfoldable pub check_duplicate : Query F (GateResult F)
  check_duplicate w =
      refuse_if (order_id_exists order.client_order_id w) duplicate_order_id check_event w

  abbrev regular_session : Query F (GateResult F) → Query F (GateResult F)
  regular_session rest = do
    c ← x.calendar us
    refuse_if (not c.is_regular_session) regular_session_only rest

  -- 10. An order by amount on the US market waits for the regular session.
  unfoldable pub check_session : Query F (GateResult F)
  check_session =
      where_applies (is_us order.market && is_amount order.order_type) regular_session
        check_duplicate

  -- 9. The market is open.
  unfoldable pub check_open : Query F (GateResult F)
  check_open = do c ← x.calendar order.market; refuse_if (not c.is_open) market_closed check_session

  abbrev no_warnings : Query F (GateResult F) → Query F (GateResult F)
  no_warnings rest = do
    s ← x.warnings order.symbol
    refuse_if s.has_restriction (restricted_symbol s.reason) rest

  -- 8. No restriction on a KR stock.
  unfoldable pub check_warnings : Query F (GateResult F)
  check_warnings = where_applies (is_kr order.market) no_warnings check_open

module _ {F : Type 0} ⦃f : Float F⦄ (x : Exchange F) (order : Order F) (mode : RunMode) where
  -- 7. The cash buffer holds at least 5 % of the seed.
  unfoldable pub check_buffer : Query F (GateResult F)
  check_buffer w =
      (do
        buffer ← get_cash_buffer_krw x mode.mode
        refuse_if (less buffer (of_int w.settings.initial_seed_krw ⊗ decimal 5 2)) cash_buffer_short
            (check_warnings x order))
        w

  -- 6. The amount of one order is limited.
  unfoldable pub check_amount : Query F (GateResult F)
  check_amount w =
      refuse_if (ltb_ℤ w.settings.max_single_order_krw order.amount_krw)
        (order_amount_exceeded order.amount_krw) check_buffer w

  abbrev sellable : Query F (GateResult F) → Query F (GateResult F)
  sellable rest = do
    held ← get_holding_quantity x order.symbol mode.mode
    refuse_if (ltb_ℤ held order.quantity) (sellable_exceeded held order.quantity) rest

  -- 5. A sale is covered by what can be sold.
  unfoldable pub check_sellable : Query F (GateResult F)
  check_sellable = where_applies (is_sell order.action) sellable check_amount

  -- 4. The share of the symbol is limited.
  unfoldable pub check_ratio : Query F (GateResult F)
  check_ratio w =
      (do
        ratio ← get_position_ratio x order.symbol mode.mode
        refuse_if (less w.settings.max_position_ratio ratio) (position_ratio_exceeded ratio)
            check_sellable)
        w

  -- 3. The loss of the day is limited.
  unfoldable pub check_loss : Query F (GateResult F)
  check_loss w =
      let loss = get_daily_loss mode w in
      refuse_if (leb_ℤ w.settings.max_daily_loss_krw loss) (daily_loss_exceeded loss) check_ratio w

  -- 1 and 2. No stop flag is set.
  unfoldable pub check_flags : Query F (GateResult F)
  check_flags w =
      refuse_if w.settings.emergency_stop emergency_stop_active
        (refuse_if (is_kr mode.market && w.settings.kr_stop) kr_stop_active
          (refuse_if (is_us mode.market && w.settings.us_stop) us_stop_active check_loss))
        w

  -- 0. The quantity and the amount are positive.
  unfoldable pub check : Query F (GateResult F)
  check =
      refuse_if (leb_ℤ order.quantity (pos 0) || leb_ℤ order.amount_krw (pos 0)) not_positive
        check_flags
