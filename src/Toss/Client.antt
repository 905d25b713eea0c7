-- ===== src/Toss/Client.antt =====
-- `request` of core/toss/client.py with its retries, and the token of core/toss/auth.py.
use toss_invest_ai.Prelude.{
  ℕ, zero, suc, ◌+◌, ◌-◌, ◌*◌, String, string_equality, Bool, true, false, ◌&&◌, ◌||◌, ◌==◌, Option,
  none, some, ◌∷◌, ltb, leb, nat_eq, if◌then◌else◌,
}
use toss_invest_ai.Models.{Result, ok, err, value_error, toss_api_error, rate_limit_exceeded}
use toss_invest_ai.Toss.Link.{
  Group, Link, Expiring, Sent, current, set_for, sleep, limit_for, is_peak_time, peak_rate_limit,
}

-- The header Retry-After: not there, a number of seconds (here in milliseconds), or a text that
-- `float` does not read, such as a date.
pub data RetryAfter : Type 0 where
  no_header : RetryAfter
  milliseconds : ℕ → RetryAfter
  unreadable : RetryAfter

-- What a response is read for.
pub record Response (Body : Type 0) : Type 0 where
  pub status : ℕ
  pub retry_after : RetryAfter
  -- the error code and the message of the body, where the status is an error
  pub code : Option String
  pub message : String
  pub body : Result Body

-- The other side, which may answer by everything that came before: a response or a failure of the
-- connection, a token with the seconds that it lives, and the random part of a wait.
pub record Network (Body : Type 0) : Type 0 where
  pub respond : Sent → Link → Result (Response Body)
  pub issue : Link → Result (String × ℕ)
  pub jitter : Link → ℕ

-- The result of a successful request: the body, or that the order was already in that state.
pub data Answer (Body : Type 0) : Type 0 where
  answer : Body → Answer Body
  already_done : Option String → String → Answer Body

abbrev pub counted : ℕ → Option (Expiring ℕ) → Option (Expiring ℕ)
counted n none = none
counted n (some e) = some (record e { value = n })

-- Redis `INCR`, and the expiry of a new counter after a second.
abbrev pub incremented : Group → Option ℕ → Link → ℕ × Link
incremented g none l = (
  1,
  record l {
    counters = set_for g (some (record { value = 1; expires = l.now + 1_000 })) l.counters;
  },
)
incremented g (some n) l =
    (suc n, record l { counters = set_for g (counted (suc n) (l.counters g)) l.counters })

unfoldable pub count_request : Group → Link → ℕ × Link
count_request g l = incremented g (current l.now (l.counters g)) l

-- `none` is a loop that has not ended within the fuel.
unfoldable pub slot_loop : ℕ → ℕ → Group → Link → Option Link
slot_loop zero limit g l = none
slot_loop (suc fuel) limit g l =
    let (n, l') = count_request g l in
    elim (leb n limit) [ true ↦ some l' | false ↦ slot_loop fuel limit g (sleep 1_000 l') ]

abbrev pub acquire_slot : ℕ → Group → Link → Option Link
acquire_slot fuel g l = slot_loop fuel (limit_for g l.now) g l

-- The pause after an order 400 ms ago or less.
abbrev pub pause_after : Option ℕ → Link → Link
pause_after none l = l
pause_after (some last) l = if ltb (l.now - last) 400 then sleep (400 - (l.now - last)) l else l

abbrev pub noted : Group → Link → Link
noted g l = record l {
  last_orders = set_for g (some (record { value = l.now; expires = l.now + 5_000 })) l.last_orders;
}

abbrev pub is_spaced : Group → ℕ → Bool
is_spaced g now = elim (peak_rate_limit g) [ none ↦ false | some _ ↦ is_peak_time now ]

unfoldable pub enforce_peak_spacing : Group → Link → Link
enforce_peak_spacing g l =
    if is_spaced g l.now then noted g (pause_after (current l.now (l.last_orders g)) l) else l

-- `max(expires_in - REFRESH_MARGIN_SECONDS, 60)`, in milliseconds.
unfoldable pub token_ttl : ℕ → ℕ
token_ttl expires_in = (if ltb (expires_in - 300) 60 then 60 else expires_in - 300) * 1_000

abbrev pub stored_token : String → ℕ → Link → Link
stored_token token expires_in l = record l {
  token = some (record { value = token; expires = l.now + token_ttl expires_in });
  issued = suc l.issued;
}

abbrev pub token_issued : Result (String × ℕ) → Link → Result String × Link
token_issued (err e) l = (err e, l)
token_issued (ok (token, expires_in)) l = (ok token, stored_token token expires_in l)

-- `if cached`: an empty text is no token.
abbrev pub cached_token : Option String → Option String
cached_token none = none
cached_token (some t) = if t == "" then none else some t

unfoldable pub invalidate_token : Link → Link
invalidate_token l = record l { token = none }

-- `_IGNORE_AS_SUCCESS_CODES`
abbrev pub is_already_done : Option String → Bool
is_already_done none = false
is_already_done (some c) =
    c == "already-filled"
    || c == "already-canceled"
    || c == "already-modified"
    || c == "order-not-found"

-- `_TOKEN_REFRESH_CODES`
abbrev pub is_token_code : Option String → Bool
is_token_code none = false
is_token_code (some c) = c == "invalid-token" || c == "expired-token" || c == "login-user-not-found"

-- `_WAIT_THEN_RETRY_SECONDS`, in milliseconds.
abbrev pub wait_of : Option String → Option ℕ
wait_of none = none
wait_of (some c) =
    if c == "already-processing"
    then some 1_000
    else (if c == "internal-error" then some 30_000 else none)

abbrev pub is_maintenance : Option String → Bool
is_maintenance none = false
is_maintenance (some c) = c == "maintenance"

abbrev pub is_positive : ℕ → Bool
is_positive zero = false
is_positive (suc _) = true

-- What an attempt comes to: the end of the call, or another attempt with this backoff.
pub data Attempt (Body : Type 0) : Type 0 where
  ends : Result (Answer Body) → Link → Attempt Body
  again : ℕ → Link → Attempt Body

module _ {Body : Type 0} (net : Network Body) where
  abbrev pub issue_token : Link → Result String × Link
  issue_token l = token_issued (net.issue l) l

  unfoldable pub get_access_token : Link → Result String × Link
  get_access_token l = elim (cached_token (current l.now l.token)) [
    | some t ↦ (ok t, l)
    | none ↦ issue_token l
  ]

  -- `float(resp.headers.get("Retry-After", backoff))`
  abbrev pub rest_of_wait : ℕ → RetryAfter → Result ℕ
  rest_of_wait backoff no_header = ok backoff
  rest_of_wait backoff (milliseconds ms) = ok ms
  rest_of_wait backoff unreadable = err value_error

  -- `min(backoff * 2, 4.0)`
  abbrev pub next_backoff : ℕ → ℕ
  next_backoff backoff = if ltb 4_000 (backoff * 2) then 4_000 else backoff * 2

  abbrev pub after_limit : ℕ → Result ℕ → Link → Attempt Body
  after_limit backoff (err e) l = ends (err e) l
  after_limit backoff (ok rest) l = again (next_backoff backoff) (sleep (rest + net.jitter l) l)

  -- An error that is not waited out.
  abbrev pub final_error : String → Response Body → Link → Attempt Body
  final_error path r l =
      if is_maintenance r.code
      then ends (err (toss_api_error r.status r.code)) (record l { alerts = path ∷ l.alerts })
      else ends (err (toss_api_error r.status r.code)) l

  -- The argument tells whether another attempt is left.
  abbrev pub after_wait : Bool → String → ℕ → Response Body → Option ℕ → Link → Attempt Body
  after_wait true path backoff r (some ms) l = again backoff (sleep ms l)
  after_wait _ path backoff r _ l = final_error path r l

  abbrev pub after_error : Bool → String → ℕ → Response Body → Link → Attempt Body
  after_error left path backoff r l =
      if is_already_done r.code
      then ends (ok (already_done r.code r.message)) l
      else (if is_maintenance r.code
          then final_error path r l
          else (if is_token_code r.code && left
              then again backoff (invalidate_token l)
              else after_wait left path backoff r (wait_of r.code) l))

  abbrev pub read_body : Result Body → Result (Answer Body)
  read_body (err e) = err e
  read_body (ok b) = ok (answer b)

  abbrev pub after_response : Bool → String → ℕ → Response Body → Link → Attempt Body
  after_response left path backoff r l =
      if nat_eq r.status 429 && left
      then after_limit backoff (rest_of_wait backoff r.retry_after) l
      else (if leb 400 r.status
          then after_error left path backoff r l
          else ends (read_body r.body) l)

  abbrev pub after_reply : Bool → String → ℕ → Result (Response Body) × Link → Attempt Body
  after_reply left path backoff (err e, l) = ends (err e) l
  after_reply left path backoff (ok r, l) = after_response left path backoff r l

  abbrev pub send : Group → String → String → Link → Result (Response Body) × Link
  send g path token l =
      let s : Sent = record { group = g; path = path; token = token } in
      (net.respond s l, record l { sent = s ∷ l.sent })

  abbrev pub with_token : Bool → Group → String → ℕ → Result String × Link → Attempt Body
  with_token left g path backoff (err e, l) = ends (err e) l
  with_token left g path backoff (ok t, l) = after_reply left path backoff (send g path t l)

  unfoldable pub attempt : Bool → Group → String → ℕ → Link → Attempt Body
  attempt left g path backoff l =
      with_token left g path backoff (get_access_token (enforce_peak_spacing g l))

  -- The attempts that are left, from the first argument on; the fuel is that of each wait for a slot.
  -- After the last attempt the loop raises.
  unfoldable pub attempts : ℕ → ℕ → Group → String → ℕ → Link → Option (Result (Answer Body) × Link)
  attempts zero fuel g path backoff l = some (err rate_limit_exceeded, l)
  attempts (suc left) fuel g path backoff l = elim (acquire_slot fuel g l) [
    | none ↦ none
    | some l' ↦ elim (attempt (is_positive left) g path backoff l') [
      | ends r l'' ↦ some (r, l'')
      | again backoff' l'' ↦ attempts left fuel g path backoff' l''
    ]
  ]

  unfoldable pub request : ℕ → Group → String → Link → Option (Result (Answer Body) × Link)
  request fuel g path l = attempts 4 fuel g path 1_000 l
