-- ===== src/Tests/Quotes.antt =====
-- Tests of the market data that the exchange is asked for.

use mathlib.Core.List.{Memᴰ}
use mathlib.Core.List.Memᴰ
use toss_invest_ai.Prelude.{
  Option, none, some, List, [], ◌≡◌, refl, arith, ap, sym, inl, inr, ◌⊎◌, string_equality, ltb,
  if◌then◌else◌,
}
use toss_invest_ai.Prelude.Int.{pos}
use toss_invest_ai.Prelude.Lists.{length}
use toss_invest_ai.Float.Fixed.{Fixed, fixed_float}
use toss_invest_ai.Models.{Result, ok}
use toss_invest_ai.Gateway.Json.{Json, json_int}
use toss_invest_ai.Toss.Link.{Link, sleep, market_data, limit_for, is_peak_time}
use toss_invest_ai.Toss.Client.{
  Network, no_header, Response, request, attempts, attempt, slot_loop, count_request,
  enforce_peak_spacing, get_access_token, token_ttl,
}
use toss_invest_ai.Toss.Calls.{Connection, Service, call, cached}
use toss_invest_ai.Toss.Market.{get_price}
use toss_invest_ai.Toss.Cache.{Fetched, recorded, IsAsked, IsRecent}
use toss_invest_ai.Toss.Fresh.{
  Cached, price_of, ask, fetch_of, key_of, start, asked, time_passes, ask-IsFresh,
}
use toss_invest_ai.Toss.Recovery.{IsComplete, request-Recovers}
use toss_invest_ai.Tests.Replies.{python}

-- Noon in KST, and nothing sent so far.
abbrev idle : Link
idle = record {
  now = 10_800_000;
  counters = λ g. none;
  last_orders = λ g. none;
  token = none;
  sent = [];
  alerts = [];
  issued = 0;
}

abbrev price : Json Fixed
price = json_int (pos 71_000)

abbrev priced : Response (Json Fixed)
priced = record {
  status = 200;
  retry_after = no_header;
  code = none;
  message = "";
  body = ok price;
}

abbrev limited : Response (Json Fixed)
limited = record {
  status = 429;
  retry_after = no_header;
  code = none;
  message = "";
  body = ok price;
}

-- Too many requests at first, and a price from the third request on.
abbrev recovering : Network (Json Fixed)
recovering = record {
  respond = λ s l. ok (if ltb (length l.sent) 2 then limited else priced);
  issue = λ l. ok ("t", 86_400);
  jitter = λ l. 250;
}

abbrev service : Service Fixed
service = record { network = λ d. recovering; dumps = λ j. "71000"; fuel = 2 }

request-Recovers_example :
    IsComplete recovering 2 price (request recovering 2 market_data "/api/v1/prices" idle)
request-Recovers_example =
    request-Recovers recovering 0 2 price market_data "/api/v1/prices" idle
      (record {
        issues = λ l. (("t", 86_400), refl);
        busy = λ s l early. record {
          response = limited;
          replies = ground (arith, early);
          too_many = refl;
          readable = λ p. cc p;
        };
        served = λ s l late. record {
          response = priced;
          replies = ground (arith, late);
          fine = omega arith;
          reads = refl;
        };
      })
      (record { in_time = λ g. tt }) (omega arith) (omega arith)

abbrev unasked : Connection
unasked = record { link = idle; cache = λ k. none }

abbrev connection_of : Option (Result (Json Fixed) × Connection) → Connection
connection_of none = unasked
connection_of (some (r, c)) = c

abbrev samsung : Cached
samsung = price_of "005930"

abbrev first : Connection
first = connection_of (ask (python price) service samsung unasked)

first_price : ask (python price) service samsung unasked ≡ some (ok price, first)
unfolding get_price cached call request attempts attempt slot_loop count_request
    enforce_peak_spacing is_peak_time get_access_token token_ttl limit_for
first_price = refl

-- Nine seconds later.
abbrev later : Connection
later = record first { link = sleep 9_000 first.link }

later_price : ask (python price) service samsung later ≡ some (ok price, later)
unfolding get_price cached call request attempts attempt slot_loop count_request
    enforce_peak_spacing is_peak_time get_access_token token_ttl limit_for
later_price = refl

abbrev answers : List (Fetched Fixed)
answers = recorded (key_of samsung) 10 unasked (ok price) first []

rereads :
    (u : Fetched Fixed)
    → Memᴰ u answers
    → (python price).loads (service.dumps u.value) ≡ some u.value
rereads u m = elim (Memᴰ.cases_cons m) [
  | inl e ↦ ap (λ (x : Fetched Fixed). some x.value) (sym e)
  | inr none_left ↦ elim (Memᴰ.not-nil none_left) [ ]
]

ask-IsFresh_example :
    IsAsked (fetch_of (python price) service samsung) price later
    ⊎ IsRecent 10 (key_of samsung) price later.link.now answers
ask-IsFresh_example =
    ask-IsFresh (python price) service samsung rereads
      (time_passes 9_000 (asked samsung (start idle) first_price)) later_price
