-- ===== src/Toss/Market.antt =====
-- core/toss/market.py: prices, candles, the market calendar and the other market data.
use Prim.Native.String.{◌++◌}
use toss_invest_ai.Prelude.{String, string_equality, Bool, false, none, some, [], ◌∷◌}
use toss_invest_ai.Float.{Float}
use toss_invest_ai.Models.{Market, Result, ok, err, type_error}
use toss_invest_ai.Toss.Link.{stock, market_info, market_data, market_data_chart}
use toss_invest_ai.Toss.Calls.{
  Call, Details, asking, call, cached, given, ◌>>=◌, market_text, Service,
}
use toss_invest_ai.Gateway.Json.{
  Json, json_bool, json_object, get, subscript, Python, float_of, is_true,
}

abbrev pub price_key : String → String
price_key symbol = "price:" ++ symbol

abbrev pub candle_key : String → String → String
candle_key symbol timeframe = "candle:" ++ (symbol ++ (":" ++ timeframe))

abbrev pub calendar_key : Market → String
calendar_key market = "market_open:" ++ market_text market

abbrev pub of_symbol : {F : Type 0} → String → Details F
of_symbol symbol = asking (some (("symbol", symbol) ∷ [])) false

abbrev pub plain : {F : Type 0} → Details F
plain = asking none false

abbrev pub of_candles : {F : Type 0} → String → String → Details F
of_candles symbol timeframe =
    asking (some (("symbol", symbol) ∷ ("timeframe", timeframe) ∷ [])) false

-- `data.get(key, False)`
abbrev get_or_false : {F : Type 0} → String → Json F → Result (Json F)
get_or_false key (json_object fs) = ok (elim (get key fs) [ some v ↦ v | none ↦ json_bool false ])
get_or_false key _ = err type_error

module _ {F : Type 0} ⦃f : Float F⦄ (py : Python F) (s : Service F) where
  unfoldable pub get_price : String → Call (Json F)
  get_price symbol =
      cached py s (price_key symbol) 10 (call py s (of_symbol symbol) market_data "/api/v1/prices")

  unfoldable pub get_candles : String → String → Call (Json F)
  get_candles symbol timeframe = cached py s (candle_key symbol timeframe) 60 (
      call py s (of_candles symbol timeframe) market_data_chart "/api/v1/candles" >>= λ reply.
      given (subscript reply "candles"))

  abbrev pub get_orderbook : String → Call (Json F)
  get_orderbook symbol = call py s (of_symbol symbol) market_data "/api/v1/orderbook"

  abbrev pub get_price_limits : String → Call (Json F)
  get_price_limits symbol = call py s (of_symbol symbol) market_data "/api/v1/price-limits"

  unfoldable pub get_exchange_rate : Call F
  get_exchange_rate = do
    reply ← call py s plain market_info "/api/v1/exchange-rate"
    rate ← given (subscript reply "rate")
    given (float_of py rate)

  abbrev pub get_stock_warnings : String → Call (Json F)
  get_stock_warnings symbol = call py s plain stock ("/api/v1/stocks/" ++ (symbol ++ "/warnings"))

  abbrev pub get_stock_info : String → Call (Json F)
  get_stock_info symbol = call py s (of_symbol symbol) stock "/api/v1/stocks"

  abbrev pub get_recent_trades : String → Call (Json F)
  get_recent_trades symbol = do
    reply ← call py s (of_symbol symbol) market_data "/api/v1/trades"
    given (subscript reply "trades")

  unfoldable pub get_market_calendar : Market → Call (Json F)
  get_market_calendar market =
      cached py s (calendar_key market) 60
        (call py s plain market_info ("/api/v1/market-calendar/" ++ market_text market))

  abbrev pub is_market_open : Market → Call Bool
  is_market_open market = do
    reply ← get_market_calendar market
    open_flag ← given (subscript reply "isOpen")
    given (ok (is_true py open_flag))

  abbrev pub is_regular_session : Market → Call Bool
  is_regular_session market = do
    reply ← get_market_calendar market
    flag ← given (get_or_false "isRegularSession" reply)
    given (ok (is_true py flag))
