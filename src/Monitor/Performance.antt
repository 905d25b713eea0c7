-- ===== src/Monitor/Performance.antt =====
-- The statistics on performance of core/api/monitor_snapshot.py.
use toss_invest_ai.Prelude.{
  ℕ, suc, ◌+◌, ◌-◌, Bool, Option, none, some, List, [], ◌∷◌, ltb, nat_eq, if◌then◌else◌,
}
use toss_invest_ai.Prelude.Int.{ℤ, pos, ◌-ℤ◌, ltb_ℤ}
use toss_invest_ai.Prelude.Lists.{length, keep}
use toss_invest_ai.Prelude.Sort.{sort_by, take, take_last, reversed}
use toss_invest_ai.Float.{Float, ◌⊕◌, ◌⊖◌, ◌⊗◌, of_int, decimal, less, at_most}
use toss_invest_ai.Models.{
  Market, kr, us, Mode, live, simulation, dry_run, Result, ok, ◌>>=◌, rounded,
}
use toss_invest_ai.World.{World, HoldingStatus, PortfolioStatus, SafetyRejection}
use toss_invest_ai.Simulation.{same_market}
use toss_invest_ai.Store.Rows.{TradeRow, trades_for_mode}
use toss_invest_ai.Store.Usage.{sum_ℤ, sum_float}
use toss_invest_ai.Report.Summaries.{later_trade}
use toss_invest_ai.Backtest.Replay.{Statistics}
use toss_invest_ai.Backtest.Figures.{calculate_sharpe_ratio}
use toss_invest_ai.Monitor.Series.{values_at, bars_from_values, quotient_of, is_up, is_down}
use toss_invest_ai.Monitor.Stats.{
  Tone, positive_tone, negative_tone, neutral_tone, Card, sharpe_card, streak_card, win_rate_card,
  profit_factor_card, fill_rate_card, alpha_card, resolved, or_collecting,
}

-- How many bars go up, from the first one on.
unfoldable pub streak_of : List ℤ → ℕ
streak_of [] = 0
streak_of (b ∷ bs) = if is_up b then suc (streak_of bs) else 0

abbrev pub is_zero : ℕ → Bool
is_zero n = nat_eq n 0

abbrev pub mode_number : Mode → ℕ
mode_number live = 0
mode_number simulation = 1
mode_number dry_run = 2

abbrev pub streak_tone : ℕ → Tone
streak_tone n = if is_zero n then neutral_tone else positive_tone

-- `abs(n)`
abbrev pub absolute_ℤ : ℤ → ℤ
absolute_ℤ n = if ltb_ℤ n (pos 0) then pos 0 -ℤ n else n

module _ (F : Type 0) ⦃f : Float F⦄ where
  -- `round(a / b * 100)`
  abbrev pub pct_of : ℕ → ℕ → Result ℤ
  pct_of a b = do
    q ← quotient_of (of_int {F = F} (pos a)) (of_int (pos b))
    rounded (q ⊗ of_int (pos 100))

-- The gains of the trades that have one.
abbrev pub closed_pnls : {F : Type 0} → List (TradeRow F) → List ℤ
closed_pnls [] = []
closed_pnls (t ∷ ts) = elim t.pnl_krw [ none ↦ closed_pnls ts | some n ↦ n ∷ closed_pnls ts ]

module _ {F : Type 0} where
  unfoldable pub win_streak_stat : List ℤ → Option (Card F)
  win_streak_stat [] = none
  win_streak_stat (b ∷ bs) =
      let streak = streak_of (reversed (b ∷ bs)) in some (streak_card (streak_tone streak) streak)

  abbrev pub later_rejection : SafetyRejection F → SafetyRejection F → Bool
  later_rejection r q = ltb q.created_at r.created_at

  abbrev pub recent_trades : Mode → World F → List (TradeRow F)
  recent_trades mode w = take 30 (sort_by later_trade (trades_for_mode mode w.database))

  abbrev pub recent_rejections : Mode → World F → List (SafetyRejection F)
  recent_rejections mode w = take 30 (
      sort_by later_rejection (
        keep (λ (r : SafetyRejection F). nat_eq (mode_number r.mode) (mode_number mode))
          w.database.safety_rejections))

module _ {F : Type 0} ⦃f : Float F⦄ where
  abbrev pub factor_card : F → Card F
  factor_card factor =
      profit_factor_card (if at_most (of_int (pos 1)) factor then positive_tone else negative_tone)
        factor

  -- The profit per loss, 999 where nothing was lost, and nothing where nothing was won either.
  abbrev pub factor_of : ℤ → ℤ → Result (Option (Card F))
  factor_of profit loss =
      if ltb_ℤ (pos 0) loss
      then (quotient_of (of_int profit) (of_int loss) >>= λ q. ok (some (factor_card q)))
      else ok (if ltb_ℤ (pos 0) profit then some (factor_card (decimal 9_990 1)) else none)

  abbrev pub rates_of : List ℤ → Result (Option (Card F) × Option (Card F))
  rates_of [] = ok (none, none)
  rates_of (n ∷ ns) = do
    rate ← pct_of F (length (keep is_up (n ∷ ns))) (length (n ∷ ns))
    factor ←
        factor_of (sum_ℤ (λ b. b) (keep is_up (n ∷ ns)))
          (absolute_ℤ (sum_ℤ (λ b. b) (keep is_down (n ∷ ns))))
    ok (some (win_rate_card rate (length (n ∷ ns))), factor)

  unfoldable pub profit_factor_and_win_rate :
      List (TradeRow F) → Result (Option (Card F) × Option (Card F))
  profit_factor_and_win_rate trades = rates_of (closed_pnls trades)

  unfoldable pub fill_rate_stat :
      List (TradeRow F) → List (SafetyRejection F) → Result (Option (Card F))
  fill_rate_stat trades rejections =
      let filled = length trades in
      let attempted = filled + length rejections in
      if is_zero attempted
      then ok none
      else (pct_of F filled attempted >>= λ pct. ok (some (fill_rate_card pct filled attempted)))

  unfoldable pub sharpe_stat : Statistics F → List F → Result (Option (Card F))
  sharpe_stat stats values =
      if ltb (length values) 5
      then ok none
      else (calculate_sharpe_ratio stats values >>= λ sharpe. ok (
          some (
            sharpe_card (if less (of_int (pos 0)) sharpe then positive_tone else neutral_tone)
              sharpe (length values - 1))))

  -- The product of one and each return, less one.
  unfoldable pub compounded : F → List F → F
  compounded total [] = total ⊖ of_int (pos 1)
  compounded total (r ∷ rs) = compounded (total ⊗ (of_int (pos 1) ⊕ r)) rs

  abbrev pub compound_return : List F → F
  compound_return = compounded (of_int (pos 1))

  abbrev pub worth : HoldingStatus F → F
  worth h = of_int h.quantity ⊗ h.current_price

  abbrev pub alpha_over : Market → List (HoldingStatus F) → List F → F → Result (Option (Card F))
  alpha_over market hs returns total = do
    mean ←
        quotient_of (sum_float (λ (h : HoldingStatus F). h.pnl_pct ⊗ worth h) (of_int (pos 0)) hs)
          total
    ok (
        some (
          alpha_card
            (if at_most (of_int (pos 0))
                (mean ⊗ of_int (pos 100) ⊖ compound_return returns ⊗ of_int (pos 100))
              then positive_tone
              else negative_tone)
            market (mean ⊗ of_int (pos 100) ⊖ compound_return returns ⊗ of_int (pos 100))))

  abbrev pub alpha_among : Market → List (HoldingStatus F) → List F → Result (Option (Card F))
  alpha_among market [] returns = ok none
  alpha_among market (h ∷ hs) [] = ok none
  alpha_among market (h ∷ hs) (r ∷ rs) =
      let total = sum_float worth (of_int (pos 0)) (h ∷ hs) in
      if at_most total (of_int (pos 0))
      then ok none
      else alpha_over market (h ∷ hs) (take_last 20 (r ∷ rs)) total

  unfoldable pub alpha_stat :
      Market → List (HoldingStatus F) → Option (List F) → Result (Option (Card F))
  alpha_stat market hs none = ok none
  alpha_stat market hs (some returns) =
      alpha_among market (keep (λ (h : HoldingStatus F). same_market h.market market) hs) returns

  unfoldable pub build_perf_stats :
      Statistics F
      → Mode
      → PortfolioStatus F
      → List (ℕ × F)
      → List ℕ
      → Option (List F)
      → Option (List F)
      → World F
      → Result (List (Card F))
  build_perf_stats stats mode portfolio daily_last days kr_returns us_returns w =
      let trades = recent_trades mode w in
      (do
        values ← values_at daily_last days
        bars ← bars_from_values values
        rates ← profit_factor_and_win_rate trades
        alpha_kr ← alpha_stat kr portfolio.holdings kr_returns
        alpha_us ← alpha_stat us portfolio.holdings us_returns
        fill_rate ← fill_rate_stat trades (recent_rejections mode w)
        sharpe ← sharpe_stat stats (take_last 31 values)
        ok (
            or_collecting (
              resolved (
                alpha_kr
                ∷ alpha_us
                ∷ rates.0
                ∷ fill_rate
                ∷ rates.1
                ∷ sharpe
                ∷ win_streak_stat bars
                ∷ []))))
