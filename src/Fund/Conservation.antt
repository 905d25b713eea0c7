-- ===== src/Fund/Conservation.antt =====
-- What `weekly_rebalance` does with the profit of the week: nothing is lost and nothing made up.
use toss_invest_ai.Prelude.{[], ◌∷◌, ◌++◌, ◌≡◌, ◌∙◌, inl, inr, arith}
use toss_invest_ai.Prelude.Int.{ℤ, ◌+ℤ◌, ◌-ℤ◌}
use toss_invest_ai.Float.{Float, ◌⊕◌, ◌⊖◌, ◌⊗◌, of_int, decimal}
use toss_invest_ai.Models.{Mode, ok, Result-cases}
use toss_invest_ai.World.{World, Exchange, FundRebalance}
use toss_invest_ai.Store.{get_weekly_net_profit_krw, get_api_usage_month_krw}
use toss_invest_ai.Fund.Holdings.{get_total_value_krw}
use toss_invest_ai.Fund.Ratio.{get_cash_buffer_krw}
use toss_invest_ai.Fund.Rebalance.{
  RebalanceResult, at_least_zero, to_int, split_profit, cap_buffer, rebalance, weekly_rebalance,
}

-- The two shares of the profit.
abbrev pub shared : RebalanceResult → ℤ
shared r = r.reinvested_krw +ℤ r.buffer_added_krw

shares_add_up : (n a : ℤ) → a +ℤ (n -ℤ a) ≡ n
unfolding ◌+ℤ◌ ◌-ℤ◌
shares_add_up n a = ground arith

moved_add_up : (a b n : ℤ) → (a +ℤ n) +ℤ (b -ℤ n) ≡ a +ℤ b
unfolding ◌+ℤ◌ ◌-ℤ◌
moved_add_up a b n = ground arith

module _ (F : Type 0) ⦃f : Float F⦄ where
  split_profit-shared :
      (cost remaining : ℤ) {r : RebalanceResult}
      → split_profit F cost remaining ≡ ok r
      → (shared r ≡ remaining) × (r.api_cost_covered_krw ≡ cost)
  split_profit-shared cost remaining h =
      elim (Result-cases (to_int {F = F} (of_int remaining ⊗ decimal 80 2))) [
        | inl (n, e) ↦ ground (arith, shares_add_up remaining n)
        | inr (e, failed) ↦ ground arith
      ]

  cap_buffer-shared :
      (r : RebalanceResult) (buffer max_buffer : F) {q : RebalanceResult}
      → cap_buffer r buffer max_buffer ≡ ok q
      → (shared q ≡ shared r) × (q.api_cost_covered_krw ≡ r.api_cost_covered_krw)
  cap_buffer-shared r buffer max_buffer h = elim (Result-cases (to_int (buffer ⊖ max_buffer))) [
    | inl (n, e) ↦ ground (arith, moved_add_up r.reinvested_krw r.buffer_added_krw n)
    | inr (e, failed) ↦ ground arith
  ]

module _ {F : Type 0} ⦃f : Float F⦄ (x : Exchange F) where
  -- The row that records a reallocation.
  abbrev pub rebalance_row : Mode → ℤ → RebalanceResult → World F → FundRebalance
  rebalance_row mode total r w = record {
    mode = mode;
    total_value_krw = total;
    api_cost_covered_krw = r.api_cost_covered_krw;
    reinvested_krw = r.reinvested_krw;
    buffer_added_krw = r.buffer_added_krw;
    created_at = w.now;
  }

  abbrev pub recorded : Mode → ℤ → RebalanceResult → World F → World F
  recorded mode total r w = record w {
    database = record w.database {
      fund_rebalances = w.database.fund_rebalances ++ (rebalance_row mode total r w ∷ []);
    };
  }

  abbrev Rebalanced : Mode → ℤ → ℤ → World F → RebalanceResult → Type 0
  Rebalanced mode cost net w q =
      (shared q ≡ at_least_zero (net -ℤ cost))
      × (q.api_cost_covered_krw ≡ cost)
      × ((total : ℤ) × ((rebalance x mode cost net w).1 ≡ recorded mode total q w))

  rebalance-Rebalanced :
      (mode : Mode) (cost net : ℤ) (w : World F) {q : RebalanceResult}
      → (rebalance x mode cost net w).0 ≡ ok q
      → Rebalanced mode cost net w q
  rebalance-Rebalanced mode cost net w {q} h =
      elim (Result-cases (split_profit F cost (at_least_zero (net -ℤ cost)))) [
        | inr (e, failed) ↦ ground arith
        | inl (r, split) ↦ elim (Result-cases (get_total_value_krw x mode w)) [
          | inr (e, failed) ↦ ground arith
          | inl (total, known) ↦ elim (Result-cases (get_cash_buffer_krw x mode w)) [
            | inr (e, failed) ↦ ground arith
            | inl (buffer, kept) ↦ elim (Result-cases (to_int total)) [
              | inr (e, failed) ↦ ground arith
              | inl (whole, cut) ↦
                  let cap =
                    cap_buffer-shared F r (buffer ⊕ of_int r.buffer_added_krw)
                      (total ⊗ decimal 20 2) {q = q} in
                  let parts =
                    split_profit-shared F cost (at_least_zero (net -ℤ cost)) {r = r} split in
                  let capped : cap_buffer r (buffer ⊕ of_int r.buffer_added_krw)
                        (total ⊗ decimal 20 2)
                      ≡ ok q =
                    ground arith in
                  ((cap capped).0 ∙ parts.0, (cap capped).1 ∙ parts.1, (whole, ground arith))
            ]
          ]
        ]
      ]

  -- If the weekly reallocation returns, the reinvested and the buffer amount add up to the profit
  -- less the AI cost (or 0), the covered cost is that of the month, and one row with these amounts
  -- is all that it changes.
  pub weekly_rebalance-conserves :
      (mode : Mode) (w : World F) {q : RebalanceResult}
      → (weekly_rebalance x mode w).0 ≡ ok q
      → (shared q ≡ at_least_zero (get_weekly_net_profit_krw mode w -ℤ get_api_usage_month_krw x w))
        × (q.api_cost_covered_krw ≡ get_api_usage_month_krw x w)
        × ((total : ℤ) × ((weekly_rebalance x mode w).1 ≡ recorded mode total q w))
  unfolding weekly_rebalance
  weekly_rebalance-conserves mode w h =
      rebalance-Rebalanced mode (get_api_usage_month_krw x w) (get_weekly_net_profit_krw mode w) w h
