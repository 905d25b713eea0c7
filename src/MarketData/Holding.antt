-- ===== src/MarketData/Holding.antt =====
-- `calculate_avg_holding_days` of core/market_data/indicators.py: sales matched with the purchases
-- that came first.
use toss_invest_ai.Prelude.{
  ℕ, String, string_equality, Bool, true, false, Option, none, some, List, [], ◌∷◌, ◌++◌, ◌==◌, leb,
  if◌then◌else◌,
}
use toss_invest_ai.Prelude.Int.{ℤ, pos, ◌+ℤ◌, ◌-ℤ◌, ltb_ℤ, eq_ℤ}
use toss_invest_ai.Prelude.Sort.{sort_by}
use toss_invest_ai.Float.{Float, ◌⊕◌, ◌⊗◌, of_int, divide}
use toss_invest_ai.Models.{TradeAction, buy, Result, ok, or_error, ◌>>=◌, zero_division_error}
use toss_invest_ai.Store.Rows.{TradeRow, earlier}

-- What is left of a purchase.
pub record Lot : Type 0 where
  pub qty : ℤ
  pub created_at : ℕ

pub record Matched (F : Type 0) : Type 0 where
  pub total_weighted_days : F
  pub total_matched_qty : ℤ

abbrev pub lesser : ℤ → ℤ → ℤ
lesser a b = if ltb_ℤ b a then b else a

abbrev pub is_buy : TradeAction → Bool
is_buy buy = true
is_buy _ = false

-- `since is None or trade["created_at"] >= since`
abbrev pub is_counted : Option ℕ → ℕ → Bool
is_counted none at = true
is_counted (some since) at = leb since at

module _ {F : Type 0} where
  -- `by_symbol.setdefault(trade["symbol"], []).append(trade)`
  unfoldable pub append_to :
      TradeRow F → List (String × List (TradeRow F)) → List (String × List (TradeRow F))
  append_to t [] = (t.symbol, t ∷ []) ∷ []
  append_to t ((s, ts) ∷ groups) =
      if s == t.symbol then (s, ts ++ (t ∷ [])) ∷ groups else (s, ts) ∷ append_to t groups

  unfoldable pub group_by_symbol :
      List (String × List (TradeRow F)) → List (TradeRow F) → List (String × List (TradeRow F))
  group_by_symbol groups [] = groups
  group_by_symbol groups (t ∷ ts) = group_by_symbol (append_to t groups) ts

module _ {F : Type 0} ⦃f : Float F⦄ where
  abbrev pub counted : Bool → ℕ → Lot → ℤ → Matched F → Result (Matched F)
  counted false sold_at lot n m = ok m
  counted true sold_at lot n m = do
    days ←
        or_error zero_division_error
          (divide (of_int (pos sold_at -ℤ pos lot.created_at)) (of_int (pos 86_400)))
    ok (record {
      total_weighted_days = m.total_weighted_days ⊕ days ⊗ of_int n;
      total_matched_qty = m.total_matched_qty +ℤ n;
    })

  -- The loop of a sale over the open lots: what is left of them, and the sums.
  unfoldable pub match_sale : Bool → ℕ → ℤ → List Lot → Matched F → Result (List Lot × Matched F)
  match_sale count sold_at remaining [] m = ok ([], m)
  match_sale count sold_at remaining (lot ∷ lots) m =
      let n = lesser lot.qty remaining in
      let left = lot.qty -ℤ n in
      if ltb_ℤ (pos 0) remaining
      then (counted count sold_at lot n m >>= λ m'.
          if eq_ℤ left (pos 0)
          then match_sale count sold_at (remaining -ℤ n) lots m'
          else ok (record lot { qty = left } ∷ lots, m'))
      else ok (lot ∷ lots, m)

  -- The trades of a symbol, in the order of time.
  unfoldable pub match_trades :
      Option ℕ → List Lot → List (TradeRow F) → Matched F → Result (Matched F)
  match_trades since lots [] m = ok m
  match_trades since lots (t ∷ ts) m =
      if is_buy t.action
      then match_trades since
          (lots ++ (record { qty = t.quantity; created_at = t.created_at } ∷ [])) ts m
      else (match_sale (is_counted since t.created_at) t.created_at t.quantity lots m >>= λ q.
          match_trades since q.0 ts q.1)

  unfoldable pub match_groups :
      Option ℕ → List (String × List (TradeRow F)) → Matched F → Result (Matched F)
  match_groups since [] m = ok m
  match_groups since ((s, ts) ∷ groups) m =
      match_trades since [] ts m >>= λ m'. match_groups since groups m'

  abbrev pub nothing_matched : Matched F
  nothing_matched = record { total_weighted_days = of_int (pos 0); total_matched_qty = pos 0 }

  unfoldable pub matched_since : Option ℕ → List (TradeRow F) → Result (Matched F)
  matched_since since trades =
      match_groups since (group_by_symbol [] (sort_by earlier trades)) nothing_matched

  abbrev pub average_of : Matched F → Result F
  average_of m =
      if eq_ℤ m.total_matched_qty (pos 0)
      then ok (of_int (pos 0))
      else or_error zero_division_error (divide m.total_weighted_days (of_int m.total_matched_qty))

  unfoldable pub calculate_avg_holding_days : List (TradeRow F) → Option ℕ → Result F
  calculate_avg_holding_days trades since = matched_since since trades >>= average_of
