-- ===== src/MarketData/Matching.antt =====
-- How many shares `calculate_avg_holding_days` of core/market_data/indicators.py matches.
use mathlib.Core.Path.{subst}
use toss_invest_ai.Prelude.{
  ℕ, ◌+◌, ◌≤◌, Bool, true, false, List, [], ◌∷◌, ◌≡◌, ap, arith, inl, inr, Bool-cases,
  if◌then◌else◌, string_equality,
}
use toss_invest_ai.Prelude.Int.{ℤ, pos, pos_part, neg_part, ◌+ℤ◌, ◌-ℤ◌, ltb_ℤ, eq_ℤ}
use toss_invest_ai.Prelude.Sort.{sum_by}
use toss_invest_ai.Float.{Float}
use toss_invest_ai.Models.{ok, Result-cases, ok_inj}
use toss_invest_ai.MarketData.Holding.{Lot, Matched, lesser, counted, match_sale}

abbrev pub open_qty : List Lot → ℕ
open_qty = sum_by (λ (l : Lot). pos_part l.qty)

abbrev pub short_qty : List Lot → ℕ
short_qty = sum_by (λ (l : Lot). neg_part l.qty)

eq_of_difference : (a b : ℤ) → eq_ℤ (a -ℤ b) (pos 0) ≡ true → a ≡ b
unfolding ◌-ℤ◌
eq_of_difference a b h = ground arith

difference-parts :
    (a b : ℤ) (j : ℕ)
    → neg_part a ≡ 0
    → b ≡ pos j
    → j ≤ pos_part a
    → (pos_part (a -ℤ b) + j ≡ pos_part a) × (neg_part (a -ℤ b) ≡ 0)
unfolding ◌-ℤ◌
difference-parts a b j owned same fits = ground (arith, owned, same, fits)

rest_bounded :
    (a b : ℤ) (j t : ℕ) → b ≡ pos j → j ≤ pos_part a → t ≤ pos_part (a -ℤ b) → j + t ≤ pos_part a
unfolding ◌-ℤ◌
rest_bounded a b j t same low h = ground (arith, same, low, h)

lesser-part :
    (lot remaining : ℤ)
    → neg_part lot ≡ 0
    → ltb_ℤ (pos 0) remaining ≡ true
    → (j : ℕ) × (lesser lot remaining ≡ pos j) × (j ≤ pos_part remaining) × (j ≤ pos_part lot)
lesser-part lot remaining owned positive = (
  pos_part (lesser lot remaining),
  ground (arith, owned, positive),
  ground (arith, owned, positive),
  ground (arith, owned, positive),
)

module _ {F : Type 0} ⦃f : Float F⦄ where
  -- A sale took these shares from the lots, and counts them or not.
  pub record IsTaken (count : Bool) (remaining : ℤ) (lots : List Lot) (k : ℕ)
      (q : List Lot × Matched F) : Type 0 where
    pub taken : ℕ
    pub conserved : open_qty q.0 + taken ≡ open_qty lots
    pub no_short : short_qty q.0 ≡ 0
    pub bounded : taken ≤ pos_part remaining
    pub matched : q.1.total_matched_qty ≡ pos (k + (if count then taken else 0))

  counted-qty :
      (count : Bool) (sold_at : ℕ) (lot : Lot) (n : ℤ) (k j : ℕ) (m : Matched F) {m' : Matched F}
      → m.total_matched_qty ≡ pos k
      → n ≡ pos j
      → counted count sold_at lot n m ≡ ok m'
      → m'.total_matched_qty ≡ pos (k + (if count then j else 0))
  unfolding ◌+ℤ◌
  counted-qty false sold_at lot n k j m start same h = ground (arith, start, h)
  counted-qty true sold_at lot n k j m start same h = ground (arith, start, same, h)

  more-IsTaken :
      (count : Bool) (remaining n : ℤ) (lot : Lot) (lots : List Lot) (k j : ℕ)
      (q : List Lot × Matched F)
      → n ≡ pos j
      → lot.qty ≡ n
      → j ≤ pos_part remaining
      → IsTaken count (remaining -ℤ n) lots (k + (if count then j else 0)) q
      → IsTaken count remaining (lot ∷ lots) k q
  unfolding sum_by
  more-IsTaken count remaining n lot lots k j q same all low t = record {
    taken = j + t.taken;
    conserved = omega (arith, t.conserved, ap pos_part all, ap pos_part same);
    no_short = t.no_short;
    bounded = rest_bounded remaining n j t.taken same low t.bounded;
    matched = ground (arith, t.matched);
  }

  pub match_sale-IsTaken :
      (count : Bool) (sold_at : ℕ) (remaining : ℤ) (lots : List Lot) (k : ℕ) (m : Matched F)
      {q : List Lot × Matched F}
      → short_qty lots ≡ 0
      → m.total_matched_qty ≡ pos k
      → match_sale count sold_at remaining lots m ≡ ok q
      → IsTaken count remaining lots k q
  unfolding match_sale sum_by
  match_sale-IsTaken count sold_at remaining [] k m {q} owned start h = record {
    taken = 0;
    conserved = ground (arith, ok_inj h);
    no_short = ground (arith, ok_inj h);
    bounded = omega arith;
    matched = ground (arith, ok_inj h, start);
  }
  match_sale-IsTaken count sold_at remaining (lot ∷ lots) k m {q} owned start h =
      elim (Bool-cases (ltb_ℤ (pos 0) remaining)) [
        | inr over ↦ record {
          taken = 0;
          conserved = ground (arith, h, over);
          no_short = ground (arith, h, over, owned);
          bounded = omega arith;
          matched = ground (arith, h, over, start);
        }
        | inl positive ↦
            let n = lesser lot.qty remaining in
            let (j, same, low, fits) =
              lesser-part lot.qty remaining (omega (arith, owned)) positive in
            elim (Result-cases (counted count sold_at lot n m)) [
              | inr (e, failed) ↦ ground (arith, h, positive, failed)
              | inl (m', got) ↦
                  let now = counted-qty count sold_at lot n k j m {m' = m'} start same got in
                  elim (Bool-cases (eq_ℤ (lot.qty -ℤ n) (pos 0))) [
                    | inl all ↦
                        more-IsTaken count remaining n lot lots k j q same
                          (eq_of_difference lot.qty n all) low
                          (match_sale-IsTaken count sold_at (remaining -ℤ n) lots
                            (k + (if count then j else 0)) m' {q = q} (omega (arith, owned)) now
                            (ground (arith, h, positive, got, all)))
                    | inr part ↦
                        let parts = difference-parts lot.qty n j (omega (arith, owned)) same fits in
                        let eq : (record lot { qty = lot.qty -ℤ n } ∷ lots, m') ≡ q =
                          ground (arith, h, positive, got, part) in
                        subst (IsTaken count remaining (lot ∷ lots) k) eq (record {
                          taken = j;
                          conserved = omega (arith, parts.0);
                          no_short = omega (arith, parts.1, owned);
                          bounded = low;
                          matched = now;
                        })
                  ]
            ]
      ]
