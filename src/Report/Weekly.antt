-- ===== src/Report/Weekly.antt =====
-- The figures of the weekly report of core/report/generator.py.
use toss_invest_ai.Prelude.{
  ℕ, String, Bool, true, false, Option, none, some, List, [], ◌∷◌, ◌||◌, leb, nat_eq, map,
  if◌then◌else◌,
}
use toss_invest_ai.Prelude.Int.{ℤ, pos, ltb_ℤ}
use toss_invest_ai.Prelude.Lists.{length, keep}
use toss_invest_ai.Float.{Float, ◌⊖◌, ◌⊗◌, of_int, decimal, equal, less, at_most}
use toss_invest_ai.Models.{TradeAction, sell, Result, ok, ◌>>=◌}
use toss_invest_ai.Store.Rows.{TradeRow}
use toss_invest_ai.Store.Usage.{sum_ℤ, sum_float}
use toss_invest_ai.MarketData.Holding.{is_buy, calculate_avg_holding_days}
use toss_invest_ai.Monitor.Series.{is_up, is_down}
use toss_invest_ai.Monitor.Performance.{absolute_ℤ}
use toss_invest_ai.Report.Extras.{share}

pub record WeeklyMetrics (F : Type 0) : Type 0 where
  pub total_count : ℕ
  pub buy_count : ℕ
  pub sell_count : ℕ
  pub win_rate : F
  pub avg_return : F
  pub max_win : Option (String × F)
  pub max_loss : Option (String × F)
  pub profit_factor : F
  pub avg_holding_days : F

-- The four sentences about the week to come.
pub data Direction : Type 0 where
  nothing_sold be_careful keep_and_widen keep_and_watch : Direction

abbrev pub is_sale : TradeAction → Bool
is_sale sell = true
is_sale _ = false

module _ {F : Type 0} where
  abbrev pub sold_with : TradeRow F → ℤ → String × (F × (ℤ × ℤ))
  sold_with t pnl = (t.symbol, (t.fill_price, (t.quantity, pnl)))

  -- The sales with a gain or a loss: the symbol, the price, the quantity and the gain.
  unfoldable pub sells_of : List (TradeRow F) → List (String × (F × (ℤ × ℤ)))
  sells_of [] = []
  sells_of (t ∷ ts) =
      let rest = sells_of ts in
      if is_sale t.action
      then (elim t.pnl_krw [ none ↦ rest | some pnl ↦ sold_with t pnl ∷ rest ])
      else rest

  abbrev pub pnl_of : String × (F × (ℤ × ℤ)) → ℤ
  pnl_of q = q.1.1.1

module _ {F : Type 0} ⦃f : Float F⦄ where
  -- The gain in parts of what the shares had cost.
  abbrev pub return_of : String × (F × (ℤ × ℤ)) → Result (String × F)
  return_of q =
      let cost = q.1.0 ⊗ of_int q.1.1.0 ⊖ of_int (pnl_of q) in
      if equal cost (of_int (pos 0))
      then ok (q.0, of_int (pos 0))
      else (share (of_int (pnl_of q)) cost >>= λ pct. ok (q.0, pct))

  unfoldable pub returns_of : List (String × (F × (ℤ × ℤ))) → Result (List (String × F))
  returns_of [] = ok []
  returns_of (q ∷ qs) = do r ← return_of q; rs ← returns_of qs; ok (r ∷ rs)

  abbrev pub winners : List (String × F) → List (String × F)
  winners = keep (λ q. less (of_int (pos 0)) q.1)

  abbrev pub losers : List (String × F) → List (String × F)
  losers = keep (λ q. less q.1 (of_int (pos 0)))

  -- `max` and `min` by the return: the first of the best, or of the worst.
  unfoldable pub best_of : Option (String × F) → List (String × F) → Option (String × F)
  best_of best [] = best
  best_of none (q ∷ qs) = best_of (some q) qs
  best_of (some b) (q ∷ qs) = best_of (some (if less b.1 q.1 then q else b)) qs

  unfoldable pub worst_of : Option (String × F) → List (String × F) → Option (String × F)
  worst_of worst [] = worst
  worst_of none (q ∷ qs) = worst_of (some q) qs
  worst_of (some b) (q ∷ qs) = worst_of (some (if less q.1 b.1 then q else b)) qs

  abbrev pub profit_factor_of : List ℤ → Result F
  profit_factor_of pnls =
      let profit = sum_ℤ (λ n. n) (keep is_up pnls) in
      let loss = absolute_ℤ (sum_ℤ (λ n. n) (keep is_down pnls)) in
      if ltb_ℤ (pos 0) loss
      then share (of_int profit) (of_int loss)
      else ok (if ltb_ℤ (pos 0) profit then decimal 9_990 1 else of_int (pos 0))

  -- A quotient by the number of returns, or zero where there are none.
  abbrev pub per_return : F → List (String × F) → Result F
  per_return v [] = ok (of_int (pos 0))
  per_return v (r ∷ rs) = share v (of_int (pos (length (r ∷ rs))))

  unfoldable pub weekly_trade_metrics : List (TradeRow F) → ℕ → Result (WeeklyMetrics F)
  weekly_trade_metrics all_trades week_ago =
      let week = keep (λ (t : TradeRow F). leb week_ago t.created_at) all_trades in
      let sells = sells_of week in
      (do
        returns ← returns_of sells
        factor ← profit_factor_of (map pnl_of sells)
        win_rate ← per_return (of_int (pos (length (winners returns)))) returns
        avg_return ←
            per_return (sum_float (λ (q : String × F). q.1) (of_int (pos 0)) returns) returns
        days ← calculate_avg_holding_days all_trades (some week_ago)
        ok (record {
          total_count = length week;
          buy_count = length (keep (λ (t : TradeRow F). is_buy t.action) week);
          sell_count = length sells;
          win_rate = win_rate;
          avg_return = avg_return;
          max_win = best_of none (winners returns);
          max_loss = worst_of none (losers returns);
          profit_factor = factor;
          avg_holding_days = days;
        }))

  unfoldable pub next_week_direction : WeeklyMetrics F → F → Direction
  next_week_direction m mdd =
      if nat_eq m.sell_count 0
      then nothing_sold
      else (if less m.win_rate (decimal 4 1) || less mdd (f.negate (decimal 10 2))
          then be_careful
          else (if at_most (decimal 6 1) m.win_rate then keep_and_widen else keep_and_watch))
