-- ===== src/Fund/Rebalance.antt =====
-- `weekly_rebalance` of core/fund/manager.py.
use toss_invest_ai.Prelude.{[], ◌∷◌, ◌++◌, if◌then◌else◌}
use toss_invest_ai.Prelude.Int.{ℤ, pos, ◌+ℤ◌, ◌-ℤ◌, ltb_ℤ}
use toss_invest_ai.Float.{Float, ◌⊕◌, ◌⊖◌, ◌⊗◌, of_int, decimal, less}
use toss_invest_ai.Models.{Mode, Result, ok, truncated}
use toss_invest_ai.Models
use toss_invest_ai.World.{Exchange, Action, pure, query, lift, with_database, ◌>>=◌, ◌>>◌}
use toss_invest_ai.Store.{get_weekly_net_profit_krw, get_api_usage_month_krw}
use toss_invest_ai.Fund.Holdings.{get_total_value_krw}
use toss_invest_ai.Fund.Ratio.{get_cash_buffer_krw}

pub record RebalanceResult : Type 0 where
  pub api_cost_covered_krw : ℤ
  pub reinvested_krw : ℤ
  pub buffer_added_krw : ℤ

-- `max(n, 0)`
abbrev pub at_least_zero : ℤ → ℤ
at_least_zero n = if ltb_ℤ n (pos 0) then pos 0 else n

abbrev moved : RebalanceResult → ℤ → RebalanceResult
moved r overflow = record r {
  reinvested_krw = r.reinvested_krw +ℤ overflow;
  buffer_added_krw = r.buffer_added_krw -ℤ overflow;
}

module _ {F : Type 0} ⦃f : Float F⦄ where
  abbrev pub to_int : F → Result ℤ
  to_int v = truncated v

  abbrev overflowing : RebalanceResult → F → Result RebalanceResult
  overflowing r overflow = elim (to_int overflow) [
    | Models.err e ↦ Models.err e
    | ok n ↦ ok (moved r n)
  ]

  -- Step 4: what the buffer holds above 20 % of the total value is moved to the operating funds.
  abbrev pub cap_buffer : RebalanceResult → F → F → Result RebalanceResult
  cap_buffer r cash_buffer max_buffer =
      if less max_buffer cash_buffer then overflowing r (cash_buffer ⊖ max_buffer) else ok r

module _ (F : Type 0) ⦃f : Float F⦄ where
  -- Steps 2 and 3: 80 % of what remains is reinvested, the rest goes to the buffer.
  abbrev pub split_profit : ℤ → ℤ → Result RebalanceResult
  split_profit api_cost remaining = elim (to_int {F = F} (of_int remaining ⊗ decimal 80 2)) [
    | Models.err e ↦ Models.err e
    | ok reinvested ↦ ok (record {
      api_cost_covered_krw = api_cost;
      reinvested_krw = reinvested;
      buffer_added_krw = remaining -ℤ reinvested;
    })
  ]

module _ {F : Type 0} ⦃f : Float F⦄ (x : Exchange F) where
  abbrev pub record_rebalance : Mode → ℤ → RebalanceResult → Action F (Unit {0})
  record_rebalance mode total r w =
      with_database
        (λ db. record db {
          fund_rebalances =
              db.fund_rebalances
              ++ (record {
                mode = mode;
                total_value_krw = total;
                api_cost_covered_krw = r.api_cost_covered_krw;
                reinvested_krw = r.reinvested_krw;
                buffer_added_krw = r.buffer_added_krw;
                created_at = w.now;
              }
                  ∷ []);
        })
        w

  abbrev pub rebalance : Mode → ℤ → ℤ → Action F RebalanceResult
  rebalance mode api_cost net_profit = do
    let remaining = at_least_zero (net_profit -ℤ api_cost)
    r ← lift (split_profit F api_cost remaining)
    total ← query (get_total_value_krw x mode)
    buffer ← query (get_cash_buffer_krw x mode)
    result ← lift (cap_buffer r (buffer ⊕ of_int r.buffer_added_krw) (total ⊗ decimal 20 2))
    whole ← lift (to_int total)
    record_rebalance mode whole result
    pure result

  unfoldable pub weekly_rebalance : Mode → Action F RebalanceResult
  weekly_rebalance mode w =
      rebalance mode (get_api_usage_month_krw x w) (get_weekly_net_profit_krw mode w) w
