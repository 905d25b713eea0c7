-- ===== src/Toss/Calls.antt =====
-- What the functions of core/toss/market.py, core/toss/account.py and core/toss/order.py share: a
-- call of `request` of core/toss/client.py with its query or body, and the cache in Redis.

use toss_invest_ai.Prelude.{
  ℕ, ◌+◌, ◌*◌, String, string_equality, Bool, true, Option, none, some, List, ◌==◌, if◌then◌else◌,
}
use toss_invest_ai.Models.{Market, kr, us, Result, ok, err, or_error, value_error}
use toss_invest_ai.Toss.Link.{Group, Link, Expiring, current}
use toss_invest_ai.Toss.Client.{Network, Answer, answer, already_done, request}
use toss_invest_ai.Gateway.Json.{
  Json, json_null, json_bool, json_string, json_object, field, no_fields, Python,
}

pub data Method : Type 0 where
  get_method post_method : Method

-- What a request has besides its path.
pub record Details (F : Type 0) : Type 0 where
  pub method : Method
  pub params : Option (List (String × String))
  pub json : Option (Json F)
  pub account_required : Bool

-- The connection, and the texts that Redis keeps under the keys of market.py.
pub record Connection : Type 0 where
  pub link : Link
  pub cache : String → Option (Expiring String)

-- `none` is a wait for a slot that does not end within the fuel.
abbrev pub Call : Type 0 → Type 0
Call A = Connection → Option (Result A × Connection)

abbrev pub succeed : {A : Type 0} → A → Call A
succeed a c = some (ok a, c)

abbrev pub given : {A : Type 0} → Result A → Call A
given r c = some (r, c)

infixl 5 ◌>>=◌
abbrev pub ◌>>=◌ : {A B : Type 0} → Call A → (A → Call B) → Call B
m >>= k = λ c. elim (m c) [
  | none ↦ none
  | some q ↦ elim q.0 [ ok a ↦ k a q.1 | err e ↦ some (err e, q.1) ]
]

-- An f-string with a market.
abbrev pub market_text : Market → String
market_text kr = "KR"
market_text us = "US"

abbrev pub set_key : String → String → ℕ → Connection → Connection
set_key key text seconds c = record c {
  cache = λ k.
      if k == key
      then some (record { value = text; expires = c.link.now + seconds * 1_000 })
      else c.cache k;
}

abbrev code_json : {F : Type 0} → Option String → Json F
code_json none = json_null
code_json (some c) = json_string c

-- The value that `request` returns.
abbrev pub json_of : {F : Type 0} → Answer (Json F) → Json F
json_of (answer j) = j
json_of (already_done c message) = json_object (
    field "code" (code_json c)
      (field "alreadyDone" (json_bool true) (field "message" (json_string message) no_fields)))

abbrev answered : {F : Type 0} → Result (Answer (Json F)) → Result (Json F)
answered (ok a) = ok (json_of a)
answered (err e) = err e

abbrev returned :
    {F : Type 0}
    → Connection
    → Option (Result (Answer (Json F)) × Link)
    → Option (Result (Json F) × Connection)
returned c none = none
returned c (some (r, l)) = some (answered r, record c { link = l })

-- The other side, which sees the details of each request, `json.dumps`, and the fuel of a wait.
pub record Service (F : Type 0) : Type 0 where
  pub network : Details F → Network (Json F)
  pub dumps : Json F → String
  pub fuel : ℕ

module _ {F : Type 0} (py : Python F) (s : Service F) where
  unfoldable pub call : Details F → Group → String → Call (Json F)
  call details group path c = returned c (request (s.network details) s.fuel group path c.link)

  abbrev pub kept : String → ℕ → Json F → Call (Json F)
  kept key seconds reply c = some (ok reply, set_key key (s.dumps reply) seconds c)

  -- A value of the cache, or a new one that is kept for these seconds.
  unfoldable pub cached : String → ℕ → Call (Json F) → Call (Json F)
  cached key seconds fetch c = elim (current c.link.now (c.cache key)) [
    | some text ↦ some (or_error value_error (py.loads text), c)
    | none ↦ (fetch >>= kept key seconds) c
  ]

-- The details of a query with these parameters.
abbrev pub asking : {F : Type 0} → Option (List (String × String)) → Bool → Details F
asking params account = record {
  method = get_method;
  params = params;
  json = none;
  account_required = account;
}
