-- ===== src/MarketData/Matched.antt =====
-- The shares that `calculate_avg_holding_days` of core/market_data/indicators.py matches in all.

use toss_invest_ai.Prelude.{
  ℕ, ◌+◌, ◌≤◌, String, Option, List, [], ◌∷◌, ◌++◌, ◌≡◌, refl, arith, inl, inr, Bool-cases,
  if◌then◌else◌, string_equality,
}
use toss_invest_ai.Prelude.Int.{pos, pos_part, neg_part}
use toss_invest_ai.Prelude.Lists.{All}
use toss_invest_ai.Prelude.Sort.{sum_by, sum_by-append, sum_by-sort_by, sort_by}
use toss_invest_ai.Float.{Float}
use toss_invest_ai.Models.{ok, Result-cases, >>=_ok, ok_inj}
use toss_invest_ai.Store.Rows.{TradeRow, earlier}
use toss_invest_ai.MarketData.Matching.{open_qty, short_qty, match_sale-IsTaken}
use toss_invest_ai.MarketData.Holding.{
  Lot, Matched, is_counted, append_to, group_by_symbol, match_sale, is_buy, match_trades,
  match_groups, nothing_matched, matched_since,
}

module _ {F : Type 0} ⦃f : Float F⦄ where
  abbrev pub bought_of : TradeRow F → ℕ
  bought_of t = if is_buy t.action then pos_part t.quantity else 0

  abbrev pub sold_of : Option ℕ → TradeRow F → ℕ
  sold_of since t =
      if is_buy t.action
      then 0
      else (if is_counted since t.created_at then pos_part t.quantity else 0)

  abbrev pub bought_qty : List (TradeRow F) → ℕ
  bought_qty = sum_by bought_of

  abbrev pub sold_qty : Option ℕ → List (TradeRow F) → ℕ
  sold_qty since = sum_by (sold_of since)

  abbrev pub owed_qty : List (TradeRow F) → ℕ
  owed_qty = sum_by (λ (t : TradeRow F). neg_part t.quantity)

  -- So many shares are matched in all, no more than were open or bought, or than were sold.
  pub record IsMatched (k bought sold : ℕ) (m : Matched F) : Type 0 where
    pub qty : ℕ
    pub total : m.total_matched_qty ≡ pos (k + qty)
    pub by_bought : qty ≤ bought
    pub by_sold : qty ≤ sold

  more-IsMatched :
      (k a k' bought sold bought' sold' : ℕ) (m : Matched F)
      → IsMatched k' bought sold m
      → k' ≡ k + a
      → bought + a ≤ bought'
      → sold + a ≤ sold'
      → IsMatched k bought' sold' m
  more-IsMatched k a k' bought sold bought' sold' m h from more_bought more_sold = record {
    qty = a + h.qty;
    total = ground (arith, h.total, from);
    by_bought = omega (arith, h.by_bought, more_bought);
    by_sold = omega (arith, h.by_sold, more_sold);
  }

  match_trades-IsMatched :
      (since : Option ℕ) (lots : List Lot) (ts : List (TradeRow F)) (k : ℕ) (m : Matched F)
      {m' : Matched F}
      → short_qty lots ≡ 0
      → owed_qty ts ≡ 0
      → m.total_matched_qty ≡ pos k
      → match_trades since lots ts m ≡ ok m'
      → IsMatched k (open_qty lots + bought_qty ts) (sold_qty since ts) m'
  unfolding match_trades sum_by
  match_trades-IsMatched since lots [] k m owned paid start h = record {
    qty = 0;
    total = ground (arith, ok_inj h, start);
    by_bought = omega arith;
    by_sold = omega arith;
  }
  match_trades-IsMatched since lots (t ∷ ts) k m {m'} owned paid start h =
      elim (Bool-cases (is_buy t.action)) [
        | inl bought ↦
            let lot : Lot = record { qty = t.quantity; created_at = t.created_at } in
            let rest =
              match_trades-IsMatched since (lots ++ (lot ∷ [])) ts k m {m' = m'}
                (omega
                  (arith, owned, paid, sum_by-append (λ (l : Lot). neg_part l.qty) lots (lot ∷ [])))
                (omega (arith, paid)) start (ground (arith, h, bought)) in
            more-IsMatched k 0 k _ _ _ _ m' rest (omega arith)
              (ground (arith, bought, sum_by-append (λ (l : Lot). pos_part l.qty) lots (lot ∷ [])))
              (ground (arith, bought))
        | inr sold ↦
            let count = is_counted since t.created_at in
            elim (Result-cases (match_sale count t.created_at t.quantity lots m)) [
              | inr (e, failed) ↦ ground (arith, h, sold, failed)
              | inl (q, got) ↦
                  let s =
                    match_sale-IsTaken count t.created_at t.quantity lots k m {q = q} owned start
                      got in
                  let rest =
                    match_trades-IsMatched since q.0 ts (k + (if count then s.taken else 0)) q.1
                      {m' = m'} s.no_short (omega (arith, paid)) s.matched
                      (ground (arith, h, sold, got)) in
                  more-IsMatched k (if count then s.taken else 0) _ _ _ _ _ m' rest refl
                    (ground (arith, sold, s.conserved)) (ground (arith, sold, s.bounded))
            ]
      ]

  -- A sum over the trades of every group.
  abbrev over_groups : (TradeRow F → ℕ) → List (String × List (TradeRow F)) → ℕ
  over_groups g = sum_by (λ (q : String × List (TradeRow F)). sum_by g q.1)

  append_to-sum :
      (g : TradeRow F → ℕ) (t : TradeRow F) (groups : List (String × List (TradeRow F)))
      → over_groups g (append_to t groups) ≡ g t + over_groups g groups
  unfolding append_to sum_by
  append_to-sum g t [] = omega arith
  append_to-sum g t ((s, ts) ∷ groups) =
      ground (arith, append_to-sum g t groups, sum_by-append g ts (t ∷ []))

  group_by_symbol-sum :
      (g : TradeRow F → ℕ) (groups : List (String × List (TradeRow F))) (ts : List (TradeRow F))
      → over_groups g (group_by_symbol groups ts) ≡ over_groups g groups + sum_by g ts
  unfolding group_by_symbol sum_by
  group_by_symbol-sum g groups [] = omega arith
  group_by_symbol-sum g groups (t ∷ ts) =
      omega (arith, append_to-sum g t groups, group_by_symbol-sum g (append_to t groups) ts)

  match_groups-IsMatched :
      (since : Option ℕ) (groups : List (String × List (TradeRow F))) (k : ℕ) (m : Matched F)
      {m' : Matched F}
      → over_groups (λ t. neg_part t.quantity) groups ≡ 0
      → m.total_matched_qty ≡ pos k
      → match_groups since groups m ≡ ok m'
      → IsMatched k (over_groups bought_of groups) (over_groups (sold_of since) groups) m'
  unfolding match_groups sum_by
  match_groups-IsMatched since [] k m paid start h = record {
    qty = 0;
    total = ground (arith, ok_inj h, start);
    by_bought = omega arith;
    by_sold = omega arith;
  }
  match_groups-IsMatched since ((s, ts) ∷ groups) k m {m'} paid start h =
      let (m1, got, rest) = >>=_ok (match_trades since [] ts m) (match_groups since groups) m' h in
      let first =
        match_trades-IsMatched since [] ts k m {m' = m1} refl (omega (arith, paid)) start got in
      let others =
        match_groups-IsMatched since groups (k + first.qty) m1 {m' = m'} (omega (arith, paid))
          first.total rest in
      more-IsMatched k first.qty _ _ _ _ _ m' others refl (omega (arith, first.by_bought))
        (omega (arith, first.by_sold))

  grouped-sum :
      (g : TradeRow F → ℕ) (ts : List (TradeRow F))
      → over_groups g (group_by_symbol [] (sort_by earlier ts)) ≡ sum_by g ts
  unfolding sum_by
  grouped-sum g ts =
      omega (arith, group_by_symbol-sum g [] (sort_by earlier ts), sum_by-sort_by g earlier ts)

  -- No trade has a negative quantity.
  abbrev pub AreOwned : List (TradeRow F) → Type 0
  AreOwned = All (λ (t : TradeRow F). neg_part t.quantity ≡ 0)

  AreOwned-sum : (ts : List (TradeRow F)) → AreOwned ts → owed_qty ts ≡ 0
  unfolding sum_by
  AreOwned-sum [] tt = refl
  AreOwned-sum (t ∷ ts) (p, ps) = omega (arith, p, AreOwned-sum ts ps)

  -- If no trade has a negative quantity and the matching of sales with earlier purchases ends
  -- without an error, then the number of shares that the average holding time is taken over is not
  -- negative, not more than the shares bought, and not more than those sold since the given time.
  pub matched_since-IsMatched :
      (since : Option ℕ) (trades : List (TradeRow F)) {m : Matched F}
      → AreOwned trades
      → matched_since since trades ≡ ok m
      → IsMatched 0 (bought_qty trades) (sold_qty since trades) m
  unfolding matched_since sum_by
  matched_since-IsMatched since trades {m} owned h =
      let sorted = sort_by earlier trades in
      let found =
        match_groups-IsMatched since (group_by_symbol [] sorted) 0 nothing_matched {m' = m}
          (omega (
            arith,
            grouped-sum (λ (t : TradeRow F). neg_part t.quantity) trades,
            AreOwned-sum trades owned,
          ))
          refl h in
      more-IsMatched 0 0 0 _ _ _ _ m found refl (omega (arith, grouped-sum bought_of trades))
        (omega (arith, grouped-sum (sold_of since) trades))
