-- ===== src/Toss/Account.antt =====
-- core/toss/account.py: the account, its holdings and what it can buy and sell.
use toss_invest_ai.Prelude.{String, string_equality, true, none, some, [], ◌∷◌}
use toss_invest_ai.Prelude.Int.{ℤ}
use toss_invest_ai.Float.{Float}
use toss_invest_ai.Toss.Link.{account, asset, order_info}
use toss_invest_ai.Toss.Calls.{Call, asking, call, given, ◌>>=◌, Service}
use toss_invest_ai.Gateway.Json.{Json, subscript, Python, float_of, int_of}

module _ {F : Type 0} ⦃f : Float F⦄ (py : Python F) (s : Service F) where
  abbrev pub get_accounts : Call (Json F)
  get_accounts = do
    reply ← call py s (asking none true) account "/api/v1/accounts"
    given (subscript reply "accounts")

  abbrev pub get_holdings : Call (Json F)
  get_holdings = do
    reply ← call py s (asking none true) asset "/api/v1/holdings"
    given (subscript reply "holdings")

  abbrev pub get_buying_power : Call F
  get_buying_power = do
    reply ← call py s (asking none true) order_info "/api/v1/buying-power"
    power ← given (subscript reply "buyingPower")
    given (float_of py power)

  abbrev pub get_sellable_quantity : String → Call ℤ
  get_sellable_quantity symbol = do
    reply ←
        call py s (asking (some (("symbol", symbol) ∷ [])) true) order_info
          "/api/v1/sellable-quantity"
    quantity ← given (subscript reply "sellableQuantity")
    given (int_of py quantity)

  abbrev pub get_commissions : String → Call (Json F)
  get_commissions market =
      call py s (asking (some (("market", market) ∷ [])) true) order_info "/api/v1/commissions"
