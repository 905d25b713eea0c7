-- ===== src/MarketData/Indicators.antt =====
-- The indicators of core/market_data/indicators.py that do not come from the library `ta`.
use toss_invest_ai.Prelude.{List, [], ◌∷◌, if◌then◌else◌}
use toss_invest_ai.Prelude.Int.{pos}
use toss_invest_ai.Float.{Float, ◌⊖◌, of_int, divide, less, at_most}
use toss_invest_ai.Models.{Result, ok, or_error, ◌>>=◌, zero_division_error}

module _ {F : Type 0} ⦃f : Float F⦄ where
  unfoldable pub calculate_volume_ratio : F → F → Result F
  calculate_volume_ratio today before =
      if at_most before (of_int (pos 0))
      then ok (of_int (pos 0))
      else or_error zero_division_error (divide today before)

  -- `max(a, b)` and `min(a, b)` of Python: the first one unless the second one is beyond it.
  abbrev pub larger : F → F → F
  larger a b = if less a b then b else a

  abbrev pub smaller : F → F → F
  smaller a b = if less b a then b else a

  abbrev pub drop_from : F → F → F → Result F
  drop_from peak worst value =
      if less (of_int (pos 0)) peak
      then (do
        share ← or_error zero_division_error (divide (value ⊖ peak) peak)
        ok (smaller worst share))
      else ok worst

  -- The peak and the drawdown so far, and the values to come.
  unfoldable pub drawdown : F → F → List F → Result F
  drawdown peak worst [] = ok worst
  drawdown peak worst (v ∷ vs) = do
    worst' ← drop_from (larger peak v) worst v
    drawdown (larger peak v) worst' vs

  unfoldable pub calculate_max_drawdown_pct : List F → Result F
  calculate_max_drawdown_pct [] = ok (of_int (pos 0))
  calculate_max_drawdown_pct (v ∷ vs) = drawdown v (of_int (pos 0)) (v ∷ vs)
