-- ===== src/Report/Extras.antt =====
-- The figures of core/report/extras.py.
use toss_invest_ai.Prelude.{
  String, string_equality, Option, none, some, List, [], ◌∷◌, map, if◌then◌else◌,
}
use toss_invest_ai.Prelude.Int.{ℤ, pos}
use toss_invest_ai.Prelude.Lists.{keep}
use toss_invest_ai.Float.{Float, ◌⊕◌, ◌⊖◌, ◌⊗◌, of_int, decimal, divide, equal, at_most}
use toss_invest_ai.Models.{
  Market, us, PriceData, Result, ok, or_error, ◌>>=◌, zero_division_error, truncated,
}
use toss_invest_ai.World.{HoldingStatus}
use toss_invest_ai.Simulation.{same_market}
use toss_invest_ai.Store.Usage.{sum_float}

-- Where a float is neither missing nor zero.
abbrev pub truthy : {F : Type 0} ⦃f : Float F⦄ → Option F → Option F
truthy none = none
truthy (some r) = if equal r (of_int (pos 0)) then none else some r

pub record Unrealized (F : Type 0) : Type 0 where
  pub total_krw : ℤ
  pub total_pct : F
  pub rows : List (String × (Market × (ℤ × F)))

pub record Exposure (F : Type 0) : Type 0 where
  pub usd_krw : F
  pub us_exposure_krw : ℤ
  pub sensitivity_1pct_krw : ℤ

pub record Band (F : Type 0) : Type 0 where
  pub symbol : String
  pub pct_b : F
  pub bandwidth : F

pub record RiskLine (F : Type 0) : Type 0 where
  pub symbol : String
  pub market : Market
  pub avg : F
  pub current : F
  pub stop : F
  pub take : F

pub record Alpha (F : Type 0) : Type 0 where
  pub portfolio_pct : F
  pub benchmark_pct : F
  pub alpha_pp : F

module _ {F : Type 0} ⦃f : Float F⦄ where
  abbrev pub whole : F → Result ℤ
  whole v = truncated v

  abbrev pub share : F → F → Result F
  share a b = or_error zero_division_error (divide a b)

  -- A value of a holding in won, where the rate is there.
  abbrev pub in_krw : Option F → HoldingStatus F → F → F
  in_krw rate h v =
      if same_market h.market us then (elim (truthy rate) [ none ↦ v | some r ↦ v ⊗ r ]) else v

  abbrev pub gain_of : Option F → HoldingStatus F → F
  gain_of rate h = in_krw rate h ((h.current_price ⊖ h.avg_price) ⊗ of_int h.quantity)

  abbrev pub cost_of : Option F → HoldingStatus F → F
  cost_of rate h = in_krw rate h (h.avg_price ⊗ of_int h.quantity)

  unfoldable pub unrealized_rows :
      Option F → List (HoldingStatus F) → Result (List (String × (Market × (ℤ × F))))
  unrealized_rows rate [] = ok []
  unrealized_rows rate (h ∷ hs) = do
    n ← whole (gain_of rate h)
    rest ← unrealized_rows rate hs
    ok ((h.symbol, (h.market, (n, h.pnl_pct))) ∷ rest)

  unfoldable pub compute_unrealized : List (HoldingStatus F) → Option F → Result (Unrealized F)
  compute_unrealized hs rate =
      let gain = sum_float (gain_of rate) (of_int (pos 0)) hs in
      let cost = sum_float (cost_of rate) (of_int (pos 0)) hs in
      (do
        rows ← unrealized_rows rate hs
        total ← whole gain
        pct ← if equal cost (of_int (pos 0)) then ok (of_int (pos 0)) else share gain cost
        ok (record { total_krw = total; total_pct = pct; rows = rows }))

  unfoldable pub compute_fx : List (HoldingStatus F) → Option F → Result (Option (Exposure F))
  compute_fx hs rate = elim (truthy rate) [
    | none ↦ ok none
    | some r ↦
        let value =
          sum_float (λ (h : HoldingStatus F). h.current_price ⊗ of_int h.quantity) (of_int (pos 0))
            (keep (λ (h : HoldingStatus F). same_market h.market us) hs) in
        (do
          exposure ← whole (value ⊗ r)
          sensitivity ← whole (value ⊗ r ⊗ decimal 1 2)
          ok (
              some (record {
                usd_krw = r;
                us_exposure_krw = exposure;
                sensitivity_1pct_krw = sensitivity;
              })))
  ]

  abbrev pub band_of : String → F → F → F → Result (Option (Band F))
  band_of symbol upper lower price = if at_most upper lower then ok none else (do
    mid ← share (upper ⊕ lower) (of_int (pos 2))
    pct_b ← share (price ⊖ lower) (upper ⊖ lower)
    width ← if equal mid (of_int (pos 0)) then ok (of_int (pos 0)) else share (upper ⊖ lower) mid
    ok (some (record { symbol = symbol; pct_b = pct_b; bandwidth = width })))

  abbrev pub band_for : String → PriceData F → Result (Option (Band F))
  band_for symbol d = elim d.bollinger [
    | none ↦ ok none
    | some (upper, lower) ↦ elim d.price [
      | none ↦ ok none
      | some price ↦ band_of symbol upper lower price
    ]
  ]

  unfoldable pub compute_bands : List (String × PriceData F) → Result (List (Band F))
  compute_bands [] = ok []
  compute_bands ((s, d) ∷ prices) = do
    band ← band_for s d
    rest ← compute_bands prices
    ok (elim band [ none ↦ rest | some b ↦ b ∷ rest ])

  -- The lines at which the settings would stop a loss and take a profit.
  unfoldable pub compute_risk_lines : F → F → List (HoldingStatus F) → List (RiskLine F)
  compute_risk_lines sl tp = map (λ (h : HoldingStatus F). record {
    symbol = h.symbol;
    market = h.market;
    avg = h.avg_price;
    current = h.current_price;
    stop = h.avg_price ⊗ (of_int (pos 1) ⊖ sl);
    take = h.avg_price ⊗ (of_int (pos 1) ⊕ tp);
  })

  abbrev pub newest_of : F → List F → F
  newest_of v [] = v
  newest_of v (u ∷ rest) = newest_of u rest

  -- The first and the last value, where there are two at least and the first is not zero.
  abbrev pub ends_of : List F → Option (F × F)
  ends_of [] = none
  ends_of (v ∷ []) = none
  ends_of (v ∷ u ∷ rest) = if equal v (of_int (pos 0)) then none else some (v, newest_of u rest)

  abbrev pub change_of : F × F → Result F
  change_of q = share q.1 q.0 >>= λ r. ok (r ⊖ of_int (pos 1))

  abbrev pub alpha_of : Option (F × F) → Option (F × F) → Result (Option (Alpha F))
  alpha_of (some p) (some b) = do
    portfolio ← change_of p
    benchmark ← change_of b
    ok (
        some (record {
          portfolio_pct = portfolio;
          benchmark_pct = benchmark;
          alpha_pp = portfolio ⊖ benchmark;
        }))
  alpha_of _ _ = ok none

  unfoldable pub compute_alpha : List F → List F → Result (Option (Alpha F))
  compute_alpha snapshot_values benchmark_values =
      alpha_of (ends_of snapshot_values) (ends_of benchmark_values)
