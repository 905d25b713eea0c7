-- ===== src/Tests/Calls.antt =====
-- Tests of the calls of the exchange.
use toss_invest_ai.Prelude.{
  ℕ, if◌then◌else◌, nat_eq, Option, string_equality, none, some, [], ◌≡◌, refl, arith,
}
use toss_invest_ai.Models.{ok, Result}
use toss_invest_ai.Prelude.Lists.{length}
use toss_invest_ai.Toss.Link.{Link, order, is_peak_time, limit_for}
use toss_invest_ai.Toss.Client.{
  Network, no_header, milliseconds, request, Response, Answer, attempts, attempt, slot_loop,
  count_request, enforce_peak_spacing, get_access_token, token_ttl, already_done, invalidate_token,
}
use toss_invest_ai.Toss.Ending.{HasEnd, request-ends}
use toss_invest_ai.Toss.Spacing.{IsApart, note_at, enforce_peak_spacing-IsApart}

-- 09:00:05 KST, the slots of the second used up, an order 100 ms ago.
abbrev busy : Link
busy = record {
  now = 5_000;
  counters = λ g. some (record { value = 10; expires = 5_700 });
  last_orders = λ g. some (record { value = 4_900; expires = 9_900 });
  token = none;
  sent = [];
  alerts = [];
  issued = 0;
}

abbrev too_many : Response ℕ
too_many = record {
  status = 429;
  retry_after = milliseconds 2_000;
  code = none;
  message = "";
  body = ok 0;
}

abbrev expired : Response ℕ
expired = record {
  status = 401;
  retry_after = no_header;
  code = some "expired-token";
  message = "";
  body = ok 0;
}

abbrev filled : Response ℕ
filled = record {
  status = 409;
  retry_after = no_header;
  code = some "already-filled";
  message = "filled";
  body = ok 0;
}

-- First too many requests, then an expired token, then an order that was filled before.
abbrev grudging : Network ℕ
grudging = record {
  respond = λ s l. ok (
      if nat_eq (length l.sent) 0
      then too_many
      else (if nat_eq (length l.sent) 1 then expired else filled));
  issue = λ l. ok ("t", 86_400);
  jitter = λ l. 250;
}

request-ends_example :
    HasEnd grudging 4 order "/orders" busy (request grudging 2 order "/orders" busy)
request-ends_example =
    request-ends grudging 0 order "/orders" busy (record { in_time = λ g. omega arith })

enforce_peak_spacing-IsApart_example :
    IsApart (enforce_peak_spacing order busy).now (busy.last_orders order)
    × ((enforce_peak_spacing order busy).last_orders order
        ≡ note_at (enforce_peak_spacing order busy).now)
unfolding is_peak_time
enforce_peak_spacing-IsApart_example =
    enforce_peak_spacing-IsApart order busy (record { notes = λ g. (omega arith, refl) })
      (λ e. cc e) refl

spaced_at : (enforce_peak_spacing order busy).now ≡ 5_300
unfolding enforce_peak_spacing is_peak_time
spaced_at = refl

abbrev outcome_of : Option (Result (Answer ℕ) × Link) → Option (Result (Answer ℕ))
outcome_of none = none
outcome_of (some (r, l)) = some r

-- A slot after a second, one wait for too many requests, one new token; then the order is done.
already_filled :
    outcome_of (request grudging 2 order "/orders" busy)
    ≡ some (ok (already_done (some "already-filled") "filled"))
unfolding request attempts attempt slot_loop count_request enforce_peak_spacing is_peak_time
    get_access_token token_ttl invalidate_token limit_for
already_filled = refl
