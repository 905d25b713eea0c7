-- ===== src/Toss/Recovery.antt =====
-- `request` of core/toss/client.py under a rate limit of the exchange that passes.
use mathlib.Core.Path.{subst⁻¹}
use toss_invest_ai.Prelude.{
  ℕ, zero, suc, ◌+◌, ◌≤◌, ◌<◌, String, string_equality, Bool, true, false, Option, none, some, ◌≡◌,
  ◌≢◌, refl, ap, arith, leb, Bool-cases, inl, inr,
}
use toss_invest_ai.Prelude.Lists.{length}
use toss_invest_ai.Models.{Result, ok}
use toss_invest_ai.Toss.Link.{Group, Link, Sent, limit_for, current}
use toss_invest_ai.Toss.Slots.{IsTimely, slot-HasSlot, limit_for-positive, Later-IsTimely}
use toss_invest_ai.Toss.Client.{
  Network, Response, unreadable, Answer, answer, attempt, ends, again, Attempt, attempts, request,
  is_positive, get_access_token, enforce_peak_spacing, with_token, issue_token, cached_token,
  token_issued,
}
use toss_invest_ai.Toss.Sending.{AttemptBy, attempt_sends}

module _ {Body : Type 0} (net : Network Body) where
  -- A reply with the status 429, whose header Retry-After is a number or missing, and a reply with a body.
  pub record IsBusy (q : Result (Response Body)) : Type 0 where
    pub response : Response Body
    pub replies : q ≡ ok response
    pub too_many : response.status ≡ 429
    pub readable : response.retry_after ≢ unreadable

  pub record IsServed (body : Body) (q : Result (Response Body)) : Type 0 where
    pub response : Response Body
    pub replies : q ≡ ok response
    pub fine : response.status < 400
    pub reads : response.body ≡ ok body

  -- Until so many requests were sent in all the exchange is busy, then it answers with this body;
  -- a token is always to be had.
  pub record Recovers (count : ℕ) (body : Body) : Type 0 where
    pub issues : (l : Link) → (t : String × ℕ) × (net.issue l ≡ ok t)
    pub busy : (s : Sent) (l : Link) → length l.sent < count → IsBusy (net.respond s l)
    pub served : (s : Sent) (l : Link) → count ≤ length l.sent → IsServed body (net.respond s l)

  abbrev HasToken : Link → Result String × Link → Type 0
  HasToken l q = (t : String) × (l' : Link) × (q ≡ (ok t, l')) × (length l'.sent ≡ length l.sent)

  issued-HasToken :
      (l : Link) → (t : String × ℕ) × (net.issue l ≡ ok t) → HasToken l (issue_token net l)
  issued-HasToken l (t, eq) = (t.0, (token_issued (ok t) l).1, ap (λ r. token_issued r l) eq, refl)

  token-HasToken :
      (count : ℕ) (body : Body) (l : Link)
      → Recovers count body
      → HasToken l (get_access_token net l)
  unfolding get_access_token
  token-HasToken count body l rec =
      elim (cached_token (current l.now l.token))
        as (λ o. HasToken l (elim o [ some t ↦ (ok t, l) | none ↦ issue_token net l ])) [
          | some t ↦ (t, l, refl, refl)
          | none ↦ issued-HasToken l (rec.issues l)
        ]

  spaced_sent : (g : Group) (l : Link) → length (enforce_peak_spacing g l).sent ≡ length l.sent
  unfolding enforce_peak_spacing
  spaced_sent g l = ground arith

  -- Another attempt, after one more request.
  abbrev IsRetried : Link → Attempt Body → Type 0
  IsRetried l (ends r l') = ⊥
  IsRetried l (again b l') = length l'.sent ≡ suc (length l.sent)

  -- The end with this body, after one more request.
  abbrev IsAnswered : Body → Link → Attempt Body → Type 0
  IsAnswered body l (ends r l') = (r ≡ ok (answer body)) × (length l'.sent ≡ suc (length l.sent))
  IsAnswered body l (again b l') = ⊥

  busy-IsRetried :
      (count : ℕ) (body : Body) (g : Group) (path : String) (backoff : ℕ) (l : Link)
      → Recovers count body
      → length l.sent < count
      → IsRetried l (attempt net true g path backoff l)
  unfolding attempt
  busy-IsRetried count body g path backoff l rec early =
      let spaced = enforce_peak_spacing g l in
      let (t, l', got, same) = token-HasToken count body spaced rec in
      let s : Sent = record { group = g; path = path; token = t } in
      let b = rec.busy s l' (omega (arith, early, same, spaced_sent g l)) in
      subst⁻¹ (λ q. IsRetried l (with_token net true g path backoff q)) got
        (ground (arith, b.replies, b.too_many, b.readable, same, spaced_sent g l))

  served-IsAnswered :
      (count : ℕ) (body : Body) (left : Bool) (g : Group) (path : String) (backoff : ℕ) (l : Link)
      → Recovers count body
      → count ≤ length l.sent
      → IsAnswered body l (attempt net left g path backoff l)
  unfolding attempt
  served-IsAnswered count body left g path backoff l rec late =
      let spaced = enforce_peak_spacing g l in
      let (t, l', got, same) = token-HasToken count body spaced rec in
      let s : Sent = record { group = g; path = path; token = t } in
      let b = rec.served s l' (omega (arith, late, same, spaced_sent g l)) in
      subst⁻¹ (λ q. IsAnswered body l (with_token net left g path backoff q)) got
        (ground (arith, b.replies, b.fine, b.reads, same, spaced_sent g l))

  -- The call returned this body, after so many requests in all.
  abbrev pub IsComplete : ℕ → Body → Option (Result (Answer Body) × Link) → Type 0
  IsComplete count body o =
      (l : Link) × (o ≡ some (ok (answer body), l)) × (length l.sent ≡ suc count)

  abbrev continued :
      (ℕ → Link → Option (Result (Answer Body) × Link))
      → Attempt Body
      → Option (Result (Answer Body) × Link)
  continued rest a = elim a [ ends r l ↦ some (r, l) | again b l ↦ rest b l ]

  -- What the first attempt comes to decides about the call.
  attempts-first :
      (P : Option (Result (Answer Body) × Link) → Type 0) (left fuel : ℕ) (g : Group)
      (path : String) (backoff : ℕ) (l : Link)
      → IsTimely l
      → ((slot : Link)
          → IsTimely slot
          → length slot.sent ≡ length l.sent
          → P (
              continued
                (attempts net left (suc (suc fuel)) g path)
                (attempt net (is_positive left) g path backoff slot)))
      → P (attempts net (suc left) (suc (suc fuel)) g path backoff l)
  unfolding attempts
  attempts-first P left fuel g path backoff l t next =
      let s = slot-HasSlot fuel (limit_for g l.now) g l (limit_for-positive g l.now) t in
      subst⁻¹
        (λ o. P (elim o [
          | none ↦ none
          | some l' ↦
              continued (attempts net left (suc (suc fuel)) g path)
                (attempt net (is_positive left) g path backoff l')
        ]))
        s.found (next s.slot s.timely (ap length s.sent_same))

  answered-IsComplete :
      (count : ℕ) (body : Body) (rest : ℕ → Link → Option (Result (Answer Body) × Link)) (l : Link)
      (a : Attempt Body)
      → length l.sent ≡ count
      → IsAnswered body l a
      → IsComplete count body (continued rest a)
  answered-IsComplete count body rest l (ends r l') same (eq, more) =
      (l', ap (λ q. some (q, l')) eq, omega (arith, same, more))
  answered-IsComplete count body rest l (again b l') same bad = elim bad [ ]

  retried-IsComplete :
      (count : ℕ) (body : Body) (rest : ℕ → Link → Option (Result (Answer Body) × Link)) (l : Link)
      (a : Attempt Body)
      → IsTimely l
      → AttemptBy 1 l a
      → IsRetried l a
      → ((b : ℕ) (l' : Link)
          → IsTimely l'
          → length l'.sent ≡ suc (length l.sent)
          → IsComplete count body (rest b l'))
      → IsComplete count body (continued rest a)
  retried-IsComplete count body rest l (ends r l') t by bad next = elim bad [ ]
  retried-IsComplete count body rest l (again b l') t (d, few) more next =
      next b l' (Later-IsTimely l l' d t) more

  attempts-IsComplete :
      (left fuel count : ℕ) (body : Body) (g : Group) (path : String) (backoff : ℕ) (l : Link)
      → Recovers count body
      → IsTimely l
      → length l.sent ≤ count
      → count ≤ left + length l.sent
      → IsComplete count body (attempts net (suc left) (suc (suc fuel)) g path backoff l)
  attempts-IsComplete zero fuel count body g path backoff l rec t low high =
      attempts-first (IsComplete count body) zero fuel g path backoff l t (λ slot ts same.
        answered-IsComplete count body (attempts net zero (suc (suc fuel)) g path) slot
          (attempt net false g path backoff slot) (omega (arith, low, high, same))
          (served-IsAnswered count body false g path backoff slot rec
            (omega (arith, low, high, same))))
  attempts-IsComplete (suc left) fuel count body g path backoff l rec t low high =
      let rest = attempts net (suc left) (suc (suc fuel)) g path in
      attempts-first (IsComplete count body) (suc left) fuel g path backoff l t (λ slot ts same.
        elim (Bool-cases (leb count (length l.sent))) [
          | inl late ↦
              answered-IsComplete count body rest slot (attempt net true g path backoff slot)
                (ground (arith, low, late, same))
                (served-IsAnswered count body true g path backoff slot rec
                  (ground (arith, late, same)))
          | inr early ↦
              retried-IsComplete count body rest slot (attempt net true g path backoff slot) ts
                (attempt_sends net true g path backoff slot)
                (busy-IsRetried count body g path backoff slot rec (ground (arith, early, same)))
                (λ b l' t' more.
                  attempts-IsComplete left fuel count body g path b l' rec t'
                    (ground (arith, early, same, more)) (omega (arith, high, same, more)))
        ])

  -- If a token is always to be had, the exchange replies with the status 429, its header
  -- Retry-After missing or a number, until a number of requests were sent in all and with a body
  -- from then on, and at most three of them are still to be sent, then a call of request that
  -- starts while no counter lives longer than a second returns that body, and has sent one request
  -- more than that number in all.
  pub request-Recovers :
      (fuel count : ℕ) (body : Body) (g : Group) (path : String) (l : Link)
      → Recovers count body
      → IsTimely l
      → length l.sent ≤ count
      → count ≤ 3 + length l.sent
      → IsComplete count body (request net (suc (suc fuel)) g path l)
  unfolding request
  request-Recovers fuel count body g path l rec t low high =
      attempts-IsComplete 3 fuel count body g path 1_000 l rec t low high
