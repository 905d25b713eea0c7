-- ===== src/Monitor/Stats.antt =====
-- The statistics on risk of core/api/monitor_snapshot.py. A card carries the values that its text
-- prints.
use toss_invest_ai.Prelude.{
  ℕ, ◌-◌, String, Option, none, some, List, [], ◌∷◌, leb, ltb, if◌then◌else◌,
}
use toss_invest_ai.Prelude.Int.{ℤ, pos, negsuc, ltb_ℤ}
use toss_invest_ai.Prelude.Lists.{length}
use toss_invest_ai.Prelude.Sort.{sort_by, take_last}
use toss_invest_ai.Float.{Float, ◌⊗◌, of_int, decimal, less, at_most}
use toss_invest_ai.Models.{Market, us, Result, ok, ◌>>=◌, rounded}
use toss_invest_ai.World.{World, HoldingStatus, PortfolioStatus}
use toss_invest_ai.Simulation.{same_market}
use toss_invest_ai.MarketData.Indicators.{calculate_max_drawdown_pct}
use toss_invest_ai.Store.Usage.{sum_float}
use toss_invest_ai.Backtest.Replay.{Statistics, nth}
use toss_invest_ai.Monitor.Series.{values_at, bars_from_values, quotient_of}

pub data Tone : Type 0 where
  good_tone warn_tone bad_tone positive_tone negative_tone neutral_tone : Tone

pub data Card (F : Type 0) : Type 0 where
  concentration_card : Tone → String → F → Card F
  volatility_card : Tone → ℕ → Card F
  drawdown_card : F → Card F
  value_at_risk_card : ℤ → Card F
  sharpe_card : Tone → F → ℕ → Card F
  streak_card : Tone → ℕ → Card F
  win_rate_card : ℤ → ℕ → Card F
  profit_factor_card : Tone → F → Card F
  fill_rate_card : ℤ → ℕ → ℕ → Card F
  alpha_card : Tone → Market → F → Card F
  collecting_card : Card F

-- `[s for s in stats if s is not None]`
unfoldable pub resolved : {A : Type 0} → List (Option A) → List A
resolved [] = []
resolved (none ∷ os) = resolved os
resolved (some a ∷ os) = a ∷ resolved os

-- The resolved cards, or one that says that there are none yet.
abbrev pub or_collecting : {F : Type 0} → List (Card F) → List (Card F)
or_collecting [] = collecting_card ∷ []
or_collecting (c ∷ cs) = c ∷ cs

-- `max(0, min(n - 1, i))` for a list of n elements.
abbrev pub clamped : ℕ → ℤ → ℕ
clamped n (negsuc i) = 0
clamped n (pos i) = if leb (n - 1) i then n - 1 else i

module _ {F : Type 0} ⦃f : Float F⦄ where
  abbrev pub value_in_krw : F → HoldingStatus F → F
  value_in_krw rate h =
      let value = of_int h.quantity ⊗ h.current_price in
      if same_market h.market us then value ⊗ rate else value

  abbrev pub valued : F → List (HoldingStatus F) → List (String × F)
  valued rate [] = []
  valued rate (h ∷ hs) = (h.symbol, value_in_krw rate h) ∷ valued rate hs

  -- `max` by the value: the first of the greatest.
  unfoldable pub greatest : String × F → List (String × F) → String × F
  greatest best [] = best
  greatest best (q ∷ qs) = greatest (if less best.1 q.1 then q else best) qs

  abbrev pub concentration_tone : F → F → Tone
  concentration_tone ratio cap =
      if at_most cap ratio
      then bad_tone
      else (if at_most (cap ⊗ decimal 8 1) ratio then warn_tone else good_tone)

  abbrev pub concentration_of : F → F → String × F → Result (Option (Card F))
  concentration_of cap_ratio invested top = do
    share ← quotient_of top.1 invested
    ok (
        some (
          concentration_card
            (concentration_tone (share ⊗ of_int (pos 100)) (cap_ratio ⊗ of_int (pos 100))) top.0
            (share ⊗ of_int (pos 100))))

  abbrev pub concentration_in : F → List (String × F) → Result (Option (Card F))
  concentration_in cap_ratio [] = ok none
  concentration_in cap_ratio (q ∷ qs) =
      let invested = sum_float (λ (p : String × F). p.1) (of_int (pos 0)) (q ∷ qs) in
      if at_most invested (of_int (pos 0))
      then ok none
      else concentration_of cap_ratio invested (greatest q qs)

  unfoldable pub concentration_stat : F → List (HoldingStatus F) → F → Result (Option (Card F))
  concentration_stat cap_ratio holdings rate = concentration_in cap_ratio (valued rate holdings)

  -- The changes in percent after each positive value.
  unfoldable pub returns_pct : F → List F → Result (List F)
  returns_pct before [] = ok []
  returns_pct before (v ∷ vs) = do
    rest ← returns_pct v vs
    if less (of_int (pos 0)) before
        then (quotient_of (f.sub v before) before >>= λ share. ok (share ⊗ of_int (pos 100) ∷ rest))
        else ok rest

  abbrev pub returns_pct_of : List F → Result (List F)
  returns_pct_of [] = ok []
  returns_pct_of (v ∷ vs) = returns_pct v vs

  abbrev pub volatility_tone : F → Tone
  volatility_tone stdev =
      if less stdev (decimal 5 1)
      then good_tone
      else (if less stdev (decimal 15 1) then warn_tone else bad_tone)

  abbrev pub volatility_of : Statistics F → List F → Option (Card F)
  volatility_of stats rs =
      if ltb (length rs) 2
      then none
      else some (volatility_card (volatility_tone (stats.pstdev rs)) (length rs))

  unfoldable pub volatility_stat : Statistics F → List ℕ → List (ℕ × F) → Result (Option (Card F))
  volatility_stat stats days daily_last = if ltb (length (take_last 6 days)) 3 then ok none else (do
    values ← values_at daily_last (take_last 6 days)
    rs ← returns_pct_of values
    ok (volatility_of stats rs))

  unfoldable pub mdd_stat : List F → Result (Option (Card F))
  mdd_stat values =
      if ltb (length values) 2
      then ok none
      else (calculate_max_drawdown_pct values >>= λ mdd. ok (some (drawdown_card mdd)))

  unfoldable pub var_stat : List ℤ → Result (Option (Card F))
  var_stat bars = if ltb (length bars) 10 then ok none else (do
    i ← rounded {F = F} (decimal 5 2 ⊗ of_int (pos (length bars - 1)))
    bar ← nth (sort_by ltb_ℤ bars) (clamped (length bars) i)
    ok (some (value_at_risk_card bar)))

  unfoldable pub build_risk_stats :
      Statistics F
      → PortfolioStatus F
      → F
      → List (ℕ × F)
      → List ℕ
      → World F
      → Result (List (Card F))
  build_risk_stats stats portfolio rate daily_last days w = do
    values ← values_at daily_last days
    bars ← bars_from_values values
    concentration ← concentration_stat w.settings.max_position_ratio portfolio.holdings rate
    volatility ← volatility_stat stats days daily_last
    mdd ← mdd_stat values
    value_at_risk ← var_stat bars
    ok (or_collecting (resolved (concentration ∷ volatility ∷ mdd ∷ value_at_risk ∷ [])))
