-- ===== src/Toss/Fresh.antt =====
-- How old the values are that the cache of core/toss/market.py gives.
use Prim.Native.String.{◌++◌}
use mathlib.Core.Path.{subst}
use mathlib.Core.List.{Memᴰ}
use toss_invest_ai.Prelude.{ℕ, String, none, some, List, [], ◌≡◌, refl, string_equality, ◌⊎◌}
use toss_invest_ai.Float.{Float}
use toss_invest_ai.Models.{Market, Result, ok}
use toss_invest_ai.Toss.Link.{Group, Link, sleep, market_data, market_data_chart, market_info}
use toss_invest_ai.Toss.Calls.{
  Connection, Call, Details, Service, market_text, call, cached, given, ◌>>=◌,
}
use toss_invest_ai.Toss.Market.{
  of_symbol, of_candles, plain, price_key, candle_key, calendar_key, get_price, get_candles,
  get_market_calendar,
}
use toss_invest_ai.Toss.Cache.{
  Fetched, recorded, IsKept, KeepsCache, call-KeepsCache, then-KeepsCache, same-IsKept,
  cached-IsKept, IsRecent, IsAsked, answered-IsFresh,
}
use toss_invest_ai.Toss.Lifetimes.{lifetime, price_lifetime, candle_lifetime, calendar_lifetime}
use toss_invest_ai.Gateway.Json.{Json, Python, subscript}

-- The queries that market.py caches.
pub data Cached : Type 0 where
  price_of : String → Cached
  candles_of : String → String → Cached
  calendar_of : Market → Cached

abbrev pub key_of : Cached → String
key_of (price_of symbol) = price_key symbol
key_of (candles_of symbol timeframe) = candle_key symbol timeframe
key_of (calendar_of market) = calendar_key market

abbrev pub seconds_of : Cached → ℕ
seconds_of (price_of symbol) = 10
seconds_of (candles_of symbol timeframe) = 60
seconds_of (calendar_of market) = 60

seconds-lifetime : (q : Cached) → seconds_of q ≡ lifetime (key_of q)
seconds-lifetime (price_of symbol) = price_lifetime symbol
seconds-lifetime (candles_of symbol timeframe) = candle_lifetime symbol timeframe
seconds-lifetime (calendar_of market) = calendar_lifetime market

module _ {F : Type 0} ⦃f : Float F⦄ (py : Python F) (s : Service F) where
  abbrev pub ask : Cached → Call (Json F)
  ask (price_of symbol) = get_price py s symbol
  ask (candles_of symbol timeframe) = get_candles py s symbol timeframe
  ask (calendar_of market) = get_market_calendar py s market

  -- The call of the exchange behind a query.
  abbrev pub fetch_of : Cached → Call (Json F)
  fetch_of (price_of symbol) = call py s (of_symbol symbol) market_data "/api/v1/prices"
  fetch_of (candles_of symbol timeframe) =
      call py s (of_candles symbol timeframe) market_data_chart "/api/v1/candles" >>= λ reply.
      given (subscript reply "candles")
  fetch_of (calendar_of market) =
      call py s plain market_info ("/api/v1/market-calendar/" ++ market_text market)

  ask-cached : (q : Cached) → ask q ≡ cached py s (key_of q) (seconds_of q) (fetch_of q)
  unfolding get_price get_candles get_market_calendar
  ask-cached (price_of symbol) = refl
  ask-cached (candles_of symbol timeframe) = refl
  ask-cached (calendar_of market) = refl

  -- The connections that calls lead to, from an empty cache on, with the answers of the exchange.
  pub data History : Connection → List (Fetched F) → Type 0 where
    start : (l : Link) → History (record { link = l; cache = λ _. none }) []
    asked :
        (q : Cached) {c c' : Connection} {log : List (Fetched F)} {r : Result (Json F)}
        → History c log
        → ask q c ≡ some (r, c')
        → History c' (recorded (key_of q) (seconds_of q) c r c' log)
    other_call :
        (details : Details F) (g : Group) (path : String) {c c' : Connection}
        {log : List (Fetched F)} {r : Result (Json F)}
        → History c log
        → call py s details g path c ≡ some (r, c')
        → History c' log
    time_passes :
        (ms : ℕ) {c : Connection} {log : List (Fetched F)}
        → History c log
        → History (record c { link = sleep ms c.link }) log

  fetch-KeepsCache : (q : Cached) → KeepsCache py s (fetch_of q)
  fetch-KeepsCache (price_of symbol) =
      call-KeepsCache py s (of_symbol symbol) market_data "/api/v1/prices"
  fetch-KeepsCache (candles_of symbol timeframe) =
      then-KeepsCache py s
        (call py s (of_candles symbol timeframe) market_data_chart "/api/v1/candles")
        (λ reply. subscript reply "candles")
        (call-KeepsCache py s (of_candles symbol timeframe) market_data_chart "/api/v1/candles")
  fetch-KeepsCache (calendar_of market) =
      call-KeepsCache py s plain market_info ("/api/v1/market-calendar/" ++ market_text market)

  History-IsKept : {c : Connection} {log : List (Fetched F)} → History c log → IsKept py s c log
  History-IsKept (start l) = λ k e found. let bad : ⊥ = cc found in elim bad [ ]
  History-IsKept (asked q {c} {c'} {log} {r} h e) =
      cached-IsKept py s (key_of q) (seconds_of q) (fetch_of q) c c' r log (seconds-lifetime q)
        (fetch-KeepsCache q) (History-IsKept h)
        (subst (λ (m : Call (Json F)). m c ≡ some (r, c')) (ask-cached q) e)
  History-IsKept (other_call details g path {c} {c'} {log} {r} h e) =
      same-IsKept py s c c' log (call-KeepsCache py s details g path c c' r e) (History-IsKept h)
  History-IsKept (time_passes ms {c} {log} h) =
      same-IsKept py s c (record c { link = sleep ms c.link }) log refl (History-IsKept h)

  -- In every history of calls from an empty cache on, if json.loads reads back what json.dumps made
  -- of the answers so far, then an answer of get_price, get_candles or the market calendar is the
  -- one that the exchange gives to this call, or one that it gave to an earlier call for the same
  -- key, not as long as 10 seconds ago for a price and 60 seconds for the others.
  pub ask-IsFresh :
      {c c' : Connection} {log : List (Fetched F)} {v : Json F} (q : Cached)
      → ((u : Fetched F) → Memᴰ u log → py.loads (s.dumps u.value) ≡ some u.value)
      → History c log
      → ask q c ≡ some (ok v, c')
      → IsAsked (fetch_of q) v c ⊎ IsRecent (seconds_of q) (key_of q) v c.link.now log
  ask-IsFresh {c} {c'} {log} {v} q rereads h e =
      answered-IsFresh py s log rereads (key_of q) (seconds_of q) (fetch_of q) c c' v
        (seconds-lifetime q) (History-IsKept h)
        (subst (λ (m : Call (Json F)). m c ≡ some (ok v, c')) (ask-cached q) e)
