-- ===== src/World/External.antt =====
-- What the trading core does not implement: the replies of the Toss exchange, fresh identifiers,
-- and what the database driver makes of a float. The replies are those behind the functions of
-- core/toss/account.py, core/toss/market.py and core/toss/order.py. They may depend on the whole
-- state, so on the time and on everything that was sent before, and each may be an error.
use toss_invest_ai.Prelude.{ℕ, String, Bool, Option, List}
use toss_invest_ai.Prelude.Int.{ℤ}
use toss_invest_ai.Models.{Market, Order, Quantity, Result}
use toss_invest_ai.World.Core.{World}
use toss_invest_ai.World.Actions.{Query}

-- An entry of the holdings, of the real account or of the virtual portfolio.
pub record Holding (F : Type 0) : Type 0 where
  pub symbol : String
  pub market : Market
  pub quantity : Quantity F
  -- `none` where the reply has no `avgPrice`
  pub avg_price : Option F

pub record Warnings : Type 0 where
  pub has_restriction : Bool
  pub reason : Option String

pub record Calendar : Type 0 where
  pub is_open : Bool
  pub is_regular_session : Bool

pub record PlaceReply (F : Type 0) : Type 0 where
  pub order_id : Option String
  pub fill_price : Option F

pub record Exchange (F : Type 0) : Type 0 where
  pub price : String → Query F F
  pub exchange_rate : Query F F
  pub holdings : Query F (List (Holding F))
  pub buying_power : Query F F
  pub sellable_quantity : String → Query F ℤ
  pub commission_rate : Market → Query F F
  pub warnings : String → Query F Warnings
  pub calendar : Market → Query F Calendar
  pub place : Order F → Query F (PlaceReply F)
  -- `uuid4`
  pub unique_hex : World F → String
  pub client_order_id : Market → World F → String
  -- a float written to an Integer column: refused, or the number that is stored
  pub integer_column : F → Result ℤ
  -- a float written to a Numeric column, as it is read back
  pub numeric_column : F → F
  -- the first second of the month of a time, by the calendar of `datetime`
  pub month_start : ℕ → ℕ
