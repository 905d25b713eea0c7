-- ===== src/Toss/Ending.antt =====
-- How a call of `request` of core/toss/client.py ends.
use mathlib.Core.Path.{subst⁻¹, subst}
use toss_invest_ai.Prelude.{
  ℕ, zero, suc, ◌+◌, ◌≤◌, String, string_equality, Bool, Option, none, some, ◌≡◌, refl, ap, arith,
}
use toss_invest_ai.Prelude.Lists.{length}
use toss_invest_ai.Models.{Result}
use toss_invest_ai.Toss.Link.{Group, Link, limit_for}
use toss_invest_ai.Toss.Slots.{IsTimely, slot-HasSlot, limit_for-positive, Later-IsTimely}
use toss_invest_ai.Toss.Client.{
  Network, Answer, attempt, ends, again, Attempt, attempts, request, is_positive,
}
use toss_invest_ai.Toss.Sending.{AttemptBy, IsEnd, attempt_sends, last_attempt-IsEnd}

module _ {Body : Type 0} (net : Network Body) where
  -- A call that ended: after how many requests at most, and by which attempt.
  pub record HasEnd (n : ℕ) (g : Group) (path : String) (l : Link)
      (o : Option (Result (Answer Body) × Link)) : Type 0 where
    pub outcome : Result (Answer Body)
    pub link : Link
    pub returns : o ≡ some (outcome, link)
    pub timely : IsTimely link
    pub few : length link.sent ≤ n + length l.sent
    pub left : Bool
    pub backoff : ℕ
    pub from : Link
    pub ended_by : attempt net left g path backoff from ≡ ends outcome link

  more-HasEnd :
      (m : ℕ) (g : Group) (path : String) (l l' : Link) (o : Option (Result (Answer Body) × Link))
      → length l'.sent ≤ suc (length l.sent)
      → HasEnd m g path l' o
      → HasEnd (suc m) g path l o
  more-HasEnd m g path l l' o few e = record {
    outcome = e.outcome;
    link = e.link;
    returns = e.returns;
    timely = e.timely;
    few = omega (arith, few, e.few);
    left = e.left;
    backoff = e.backoff;
    from = e.from;
    ended_by = e.ended_by;
  }

  step-HasEnd :
      (m : ℕ) (left : Bool) (g : Group) (path : String) (backoff : ℕ) (l slot : Link)
      (rest : ℕ → Link → Option (Result (Answer Body) × Link)) (a : Attempt Body)
      → attempt net left g path backoff slot ≡ a
      → IsTimely slot
      → slot.sent ≡ l.sent
      → AttemptBy 1 slot a
      → ((b : ℕ) (l' : Link)
          → attempt net left g path backoff slot ≡ again b l'
          → IsTimely l'
          → HasEnd m g path l' (rest b l'))
      → HasEnd (suc m) g path l (elim a [ ends r l' ↦ some (r, l') | again b l' ↦ rest b l' ])
  step-HasEnd m left g path backoff l slot rest (ends r l') eq t same (d, few) more = record {
    outcome = r;
    link = l';
    returns = refl;
    timely = Later-IsTimely slot l' d t;
    few = omega (arith, few, ap length same);
    left = left;
    backoff = backoff;
    from = slot;
    ended_by = eq;
  }
  step-HasEnd m left g path backoff l slot rest (again b l') eq t same (d, few) more =
      more-HasEnd m g path l l' (rest b l') (omega (arith, few, ap length same))
        (more b l' eq (Later-IsTimely slot l' d t))

  first-HasEnd :
      (left fuel : ℕ) (g : Group) (path : String) (backoff : ℕ) (l : Link)
      → IsTimely l
      → ((slot : Link) (b : ℕ) (l' : Link)
          → attempt net (is_positive left) g path backoff slot ≡ again b l'
          → IsTimely l'
          → HasEnd left g path l' (attempts net left (suc (suc fuel)) g path b l'))
      → HasEnd (suc left) g path l (attempts net (suc left) (suc (suc fuel)) g path backoff l)
  unfolding attempts
  first-HasEnd left fuel g path backoff l t more =
      let s = slot-HasSlot fuel (limit_for g l.now) g l (limit_for-positive g l.now) t in
      let a = attempt net (is_positive left) g path backoff s.slot in
      let rest = attempts net left (suc (suc fuel)) g path in
      subst⁻¹
        (λ o. HasEnd (suc left) g path l (elim o [
          | none ↦ none
          | some l' ↦ elim (attempt net (is_positive left) g path backoff l') [
            | ends r l'' ↦ some (r, l'')
            | again b l'' ↦ rest b l''
          ]
        ]))
        s.found
        (step-HasEnd left (is_positive left) g path backoff l s.slot rest a refl s.timely
          s.sent_same (attempt_sends net (is_positive left) g path backoff s.slot) (more s.slot))

  attempts-HasEnd :
      (left fuel : ℕ) (g : Group) (path : String) (backoff : ℕ) (l : Link)
      → IsTimely l
      → HasEnd (suc left) g path l (attempts net (suc left) (suc (suc fuel)) g path backoff l)
  attempts-HasEnd zero fuel g path backoff l t =
      first-HasEnd zero fuel g path backoff l t
        (λ slot b l' eq _. elim (subst IsEnd eq (last_attempt-IsEnd net g path backoff slot)) [ ])
  attempts-HasEnd (suc left) fuel g path backoff l t =
      first-HasEnd (suc left) fuel g path backoff l t
        (λ _ b l' _ t'. attempts-HasEnd left fuel g path b l' t')

  -- From a state in which no counter of the rate limits lives longer than a second from now, every
  -- request returns, with two turns of the loop for each slot; it has sent four requests at most,
  -- its outcome is that of one of its attempts and not of the raise after the loop, and the
  -- counters live no longer than a second again.
  pub request-ends :
      (fuel : ℕ) (g : Group) (path : String) (l : Link)
      → IsTimely l
      → HasEnd 4 g path l (request net (suc (suc fuel)) g path l)
  unfolding request
  request-ends fuel g path l t = attempts-HasEnd 3 fuel g path 1_000 l t
