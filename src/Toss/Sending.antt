-- ===== src/Toss/Sending.antt =====
-- What an attempt of `request` of core/toss/client.py sends.

use toss_invest_ai.Prelude.{ℕ, ◌+◌, ◌≤◌, String, string_equality, Bool, false, Option, arith}
use toss_invest_ai.Prelude.Lists.{length}
use toss_invest_ai.Models.{Result, ok, err}
use toss_invest_ai.Toss.Link.{Group, Link}
use toss_invest_ai.Toss.Slots.{Later, Later-trans}
use toss_invest_ai.Toss.Client.{
  Network, attempt, ends, again, Attempt, after_wait, send, get_access_token, enforce_peak_spacing,
  invalidate_token, Response, after_response, after_error, with_token, after_reply,
}

-- Later, and the requests that were sent since are few.
abbrev pub SentBy : ℕ → Link → Link → Type 0
SentBy n l l' = Later l l' × (length l'.sent ≤ n + length l.sent)

module _ {Body : Type 0} where
  abbrev pub IsEnd : Attempt Body → Type 0
  IsEnd (ends r l') = Unit
  IsEnd (again b l') = ⊥

  abbrev pub AttemptBy : ℕ → Link → Attempt Body → Type 0
  AttemptBy n l (ends r l') = SentBy n l l'
  AttemptBy n l (again b l') = SentBy n l l'

  module _ (net : Network Body) where
    spacing_sends_nothing : (g : Group) (l : Link) → SentBy 0 l (enforce_peak_spacing g l)
    unfolding enforce_peak_spacing
    spacing_sends_nothing g l = ground arith

    token_sends_nothing : (l : Link) → SentBy 0 l (get_access_token net l).1
    unfolding get_access_token
    token_sends_nothing l = ground arith

    wait_sends_nothing :
        (left : Bool) (path : String) (backoff : ℕ) (r : Response Body) (o : Option ℕ) (l : Link)
        → AttemptBy 0 l (after_wait net left path backoff r o l)
    wait_sends_nothing left path backoff r o l = ground arith

    error_sends_nothing :
        (left : Bool) (path : String) (backoff : ℕ) (r : Response Body) (l : Link)
        → AttemptBy 0 l (after_error net left path backoff r l)
    unfolding invalidate_token
    error_sends_nothing left path backoff r l = ground arith

    response_sends_nothing :
        (left : Bool) (path : String) (backoff : ℕ) (r : Response Body) (l : Link)
        → AttemptBy 0 l (after_response net left path backoff r l)
    response_sends_nothing left path backoff r l =
        ground (arith, error_sends_nothing left path backoff r l)

    last_response-IsEnd :
        (path : String) (backoff : ℕ) (r : Response Body) (l : Link)
        → IsEnd (after_response net false path backoff r l)
    last_response-IsEnd path backoff r l = ground arith

    after-AttemptBy :
        (m n : ℕ) (l l' : Link) (a : Attempt Body)
        → SentBy m l l'
        → AttemptBy n l' a
        → AttemptBy (n + m) l a
    after-AttemptBy m n l l' (ends r l'') (d, few) (d', few') =
        (Later-trans l l' l'' d d', omega (arith, few, few'))
    after-AttemptBy m n l l' (again b l'') (d, few) (d', few') =
        (Later-trans l l' l'' d d', omega (arith, few, few'))

    reply_sends_nothing :
        (left : Bool) (path : String) (backoff : ℕ) (q : Result (Response Body)) (l : Link)
        → AttemptBy 0 l (after_reply net left path backoff (q, l))
    reply_sends_nothing left path backoff (err e) l = ground arith
    reply_sends_nothing left path backoff (ok r) l = response_sends_nothing left path backoff r l

    with_token_sends :
        (left : Bool) (g : Group) (path : String) (backoff : ℕ) (t : Result String) (l : Link)
        → AttemptBy 1 l (with_token net left g path backoff (t, l))
    with_token_sends left g path backoff (err e) l = ground arith
    with_token_sends left g path backoff (ok t) l =
        let q = send net g path t l in
        after-AttemptBy 1 0 l q.1 (after_reply net left path backoff q) (ground arith)
          (reply_sends_nothing left path backoff q.0 q.1)

    pub attempt_sends :
        (left : Bool) (g : Group) (path : String) (backoff : ℕ) (l : Link)
        → AttemptBy 1 l (attempt net left g path backoff l)
    unfolding attempt
    attempt_sends left g path backoff l =
        let spaced = enforce_peak_spacing g l in
        let q = get_access_token net spaced in
        after-AttemptBy 0 1 l spaced (with_token net left g path backoff q)
          (spacing_sends_nothing g l)
          (after-AttemptBy 0 1 spaced q.1 (with_token net left g path backoff q)
            (token_sends_nothing spaced) (with_token_sends left g path backoff q.0 q.1))

    reply-IsEnd :
        (path : String) (backoff : ℕ) (q : Result (Response Body)) (l : Link)
        → IsEnd (after_reply net false path backoff (q, l))
    reply-IsEnd path backoff (err e) l = tt
    reply-IsEnd path backoff (ok r) l = last_response-IsEnd path backoff r l

    token-IsEnd :
        (g : Group) (path : String) (backoff : ℕ) (t : Result String) (l : Link)
        → IsEnd (with_token net false g path backoff (t, l))
    token-IsEnd g path backoff (err e) l = tt
    token-IsEnd g path backoff (ok t) l =
        let q = send net g path t l in reply-IsEnd path backoff q.0 q.1

    -- The last attempt ends the call.
    pub last_attempt-IsEnd :
        (g : Group) (path : String) (backoff : ℕ) (l : Link)
        → IsEnd (attempt net false g path backoff l)
    unfolding attempt
    last_attempt-IsEnd g path backoff l =
        let q = get_access_token net (enforce_peak_spacing g l) in
        token-IsEnd g path backoff q.0 q.1
