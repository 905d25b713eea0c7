-- ===== src/Toss/Link.antt =====
-- The connection to the exchange as core/toss/client.py and core/toss/auth.py keep it: the counters,
-- the times of the last orders and the token in Redis, the clock, and what was sent.
use toss_invest_ai.Prelude.{
  ℕ, ◌+◌, ◌/◌, ◌%◌, String, Bool, true, ◌&&◌, Option, none, some, List, ltb, leb, nat_eq,
  if◌then◌else◌,
}

-- `RateLimitGroup`
pub data Group : Type 0 where
  auth account asset stock market_info market_data market_data_chart order order_history
        order_info :
      Group

abbrev pub group_number : Group → ℕ
group_number auth = 0
group_number account = 1
group_number asset = 2
group_number stock = 3
group_number market_info = 4
group_number market_data = 5
group_number market_data_chart = 6
group_number order = 7
group_number order_history = 8
group_number order_info = 9

-- `_RATE_LIMITS`
abbrev pub rate_limit : Group → ℕ
rate_limit auth = 5
rate_limit account = 1
rate_limit asset = 5
rate_limit stock = 5
rate_limit market_info = 3
rate_limit market_data = 10
rate_limit market_data_chart = 5
rate_limit order = 6
rate_limit order_history = 5
rate_limit order_info = 6

-- `_PEAK_RATE_LIMITS`
abbrev pub peak_rate_limit : Group → Option ℕ
peak_rate_limit order = some 3
peak_rate_limit order_info = some 3
peak_rate_limit _ = none

-- A value with the millisecond in which it ends: that of a counter, and others.
pub record Expiring (A : Type 0) : Type 0 where
  pub value : A
  pub expires : ℕ

pub record Sent : Type 0 where
  pub group : Group
  pub path : String
  pub token : String

-- Times are in milliseconds.
pub record Link : Type 0 where
  pub now : ℕ
  pub counters : Group → Option (Expiring ℕ)
  pub last_orders : Group → Option (Expiring ℕ)
  pub token : Option (Expiring String)
  -- the newest first; so for the alerts
  pub sent : List Sent
  pub alerts : List String
  -- how many tokens were issued
  pub issued : ℕ

-- What is there of a key in Redis.
abbrev pub current : {A : Type 0} → ℕ → Option (Expiring A) → Option A
current now none = none
current now (some e) = if ltb now e.expires then some e.value else none

abbrev pub set_for : {A : Type 0} → Group → A → (Group → A) → Group → A
set_for g a f h = if nat_eq (group_number g) (group_number h) then a else f h

abbrev pub sleep : ℕ → Link → Link
sleep ms l = record l { now = l.now + ms }

-- The second of the day in KST is between 09:00 and 09:10.
unfoldable pub is_peak_time : ℕ → Bool
is_peak_time now =
    let second = (now / 1_000 + 32_400) % 86_400 in leb 32_400 second && ltb second 33_000

abbrev at_peak : ℕ → Bool → Option ℕ → ℕ
at_peak limit true (some reduced) = reduced
at_peak limit _ _ = limit

unfoldable pub limit_for : Group → ℕ → ℕ
limit_for g now = at_peak (rate_limit g) (is_peak_time now) (peak_rate_limit g)
