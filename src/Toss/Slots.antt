-- ===== src/Toss/Slots.antt =====
-- The wait for a slot of the rate limit, of core/toss/client.py.
use mathlib.Core.Path.{subst⁻¹}
use toss_invest_ai.Prelude.{
  ℕ, suc, ◌+◌, ◌≤◌, string_equality, true, false, Option, none, some, ◌≡◌, refl, ◌∙◌, ap, arith,
  leb, nat_eq, if◌then◌else◌,
}
use toss_invest_ai.Toss.Link.{
  Group, Link, Expiring, current, set_for, sleep, limit_for, group_number,
}
use toss_invest_ai.Toss.Client.{count_request, incremented, counted, slot_loop}

-- A counter ends within a second of `now`.
abbrev IsBrief : ℕ → Option (Expiring ℕ) → Type 0
IsBrief now none = Unit
IsBrief now (some e) = e.expires ≤ now + 1_000

-- No counter outlives the second that it was made for.
pub record IsTimely (l : Link) : Type 0 where
  pub in_time : (g : Group) → IsBrief l.now (l.counters g)

pub limit_for-positive : (g : Group) (now : ℕ) → 1 ≤ limit_for g now
unfolding limit_for
limit_for-positive g now = ground arith

set_for-All :
    {A : Type 0} (P : A → Type 0) (g : Group) (a : A) (f : Group → A)
    → P a
    → ((h : Group) → P (f h))
    → (h : Group) → P (set_for g a f h)
set_for-All P g a f p q h =
    elim (nat_eq (group_number g) (group_number h)) as (λ b. P (if b then a else f h)) [
      | true ↦ p
      | false ↦ q h
    ]

counted-IsBrief : (now n : ℕ) (o : Option (Expiring ℕ)) → IsBrief now o → IsBrief now (counted n o)
counted-IsBrief now n none b = tt
counted-IsBrief now n (some e) b = b

incremented-IsTimely :
    (g : Group) (o : Option ℕ) (l : Link) → IsTimely l → IsTimely (incremented g o l).1
incremented-IsTimely g none l t = record {
  in_time = set_for-All (IsBrief l.now) g _ l.counters (omega arith) t.in_time;
}
incremented-IsTimely g (some n) l t = record {
  in_time =
      set_for-All (IsBrief l.now) g _ l.counters
        (counted-IsBrief l.now (suc n) (l.counters g) (t.in_time g)) t.in_time;
}

count_request-IsTimely : (g : Group) (l : Link) → IsTimely l → IsTimely (count_request g l).1
unfolding count_request
count_request-IsTimely g l t = incremented-IsTimely g (current l.now (l.counters g)) l t

-- What counting leaves alone.
count_request-kept :
    (g : Group) (l : Link)
    → ((count_request g l).1.sent ≡ l.sent) × ((count_request g l).1.now ≡ l.now)
unfolding count_request
count_request-kept g l = ground arith

current_after_second :
    (now : ℕ) (o : Option (Expiring ℕ)) → IsBrief now o → current (now + 1_000) o ≡ none
current_after_second now none b = refl
current_after_second now (some e) b = ground (arith, b)

-- After a second the counter is new.
count_after_second : (g : Group) (l : Link) → IsTimely l → (count_request g (sleep 1_000 l)).0 ≡ 1
unfolding count_request
count_after_second g l t =
    ap (λ o. (incremented g o (sleep 1_000 l)).0)
      (current_after_second l.now (l.counters g) (t.in_time g))

-- The counters are the same, at the same time or later.
pub record Later (l l' : Link) : Type 0 where
  pub same_counters : l'.counters ≡ l.counters
  pub later : l.now ≤ l'.now

by_IsBrief :
    (now after : ℕ) (o : Option (Expiring ℕ)) → now ≤ after → IsBrief now o → IsBrief after o
by_IsBrief now after none later b = tt
by_IsBrief now after (some e) later b = omega (arith, later, b)

pub Later-IsTimely : (l l' : Link) → Later l l' → IsTimely l → IsTimely l'
Later-IsTimely l l' d t = record {
  in_time = λ g.
      subst⁻¹ (λ f. IsBrief l'.now (f g)) d.same_counters
        (by_IsBrief l.now l'.now (l.counters g) d.later (t.in_time g));
}

pub Later-trans : (l l' l'' : Link) → Later l l' → Later l' l'' → Later l l''
Later-trans l l' l'' d d' = record {
  same_counters = d'.same_counters ∙ d.same_counters;
  later = omega (arith, d.later, d'.later);
}

-- A slot is there within the fuel, and waiting for it sends nothing.
pub record HasSlot (l : Link) (o : Option Link) : Type 0 where
  pub slot : Link
  pub found : o ≡ some slot
  pub timely : IsTimely slot
  pub sent_same : slot.sent ≡ l.sent

counts_first :
    (fuel limit : ℕ) (g : Group) (l : Link)
    → 1 ≤ limit
    → (count_request g l).0 ≡ 1
    → slot_loop (suc fuel) limit g l ≡ some (count_request g l).1
unfolding slot_loop
counts_first fuel limit g l positive first = ground (arith, positive, first)

pub slot-HasSlot :
    (fuel limit : ℕ) (g : Group) (l : Link)
    → 1 ≤ limit
    → IsTimely l
    → HasSlot l (slot_loop (suc (suc fuel)) limit g l)
unfolding slot_loop
slot-HasSlot fuel limit g l positive t =
    elim (leb (count_request g l).0 limit)
      as (λ b. HasSlot l (elim b [
        | true ↦ some (count_request g l).1
        | false ↦ slot_loop (suc fuel) limit g (sleep 1_000 (count_request g l).1)
      ])) [
        | true ↦ record {
          slot = (count_request g l).1;
          found = refl;
          timely = count_request-IsTimely g l t;
          sent_same = (count_request-kept g l).0;
        }
        | false ↦
            let counted_link = (count_request g l).1 in
            let timely = count_request-IsTimely g l t in
            record {
              slot = (count_request g (sleep 1_000 counted_link)).1;
              found =
                  counts_first fuel limit g (sleep 1_000 counted_link) positive
                    (count_after_second g counted_link timely);
              timely = count_request-IsTimely g (sleep 1_000 counted_link) (
                  Later-IsTimely counted_link (sleep 1_000 counted_link)
                    (record { same_counters = refl; later = omega arith }) timely);
              sent_same =
                  (count_request-kept g (sleep 1_000 counted_link)).0 ∙ (count_request-kept g l).0;
            }
      ]
