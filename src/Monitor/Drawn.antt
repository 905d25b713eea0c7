-- ===== src/Monitor/Drawn.antt =====
-- The periods of the chart of core/api/monitor_snapshot.py.
use mathlib.Core.Path.{subst⁻¹}
use toss_invest_ai.Prelude.{ℕ, suc, ◌-◌, ◌≤◌, some, List, [], ◌≡◌, refl, arith, leb}
use toss_invest_ai.Prelude.Int.{ℤ}
use toss_invest_ai.Prelude.Lists.{length}
use toss_invest_ai.Prelude.Sort.{take_last}
use toss_invest_ai.Float.{Float}
use toss_invest_ai.Models.{ok}
use toss_invest_ai.Monitor.Series.{
  sorted_keys, values_at, bars_from_values, win_rate_pct, avg_daily_return_pct,
  blended_benchmark_bars,
}
use toss_invest_ai.Monitor.Chart.{
  Period, PeriodName, this_day, Benchmarks, rest_of, empty_period, build_chart_period,
  hourly_period, daily_period,
}
use toss_invest_ai.Monitor.Shape.{length-labels_from, length-rest_of, HasBars, blended-Outcome}
use toss_invest_ai.Monitor.Outcome.{
  Outcome, weaker-Outcome, Anything, bind-Outcome, given-Outcome, if-Outcome, HasValues,
  sorted_keys-HasValues, take_last-HasValues, values_at-Outcome, bars_from_values-Outcome,
  avg_daily_return_pct-Outcome, win_rate_pct-Outcome,
}

module _ {F : Type 0} where
  -- Each bar has a label, and the benchmark has as many bars or none.
  pub record IsDrawn (most : ℕ) (p : Period F) : Type 0 where
    pub labelled : length p.x_labels ≡ length p.bars
    pub compared : HasBars (length p.bars) p.benchmark_bars
    pub few : length p.bars ≤ most

module _ {F : Type 0} ⦃f : Float F⦄ where
  -- The bars of a period, its labels, and its benchmark where it has one.
  pub record IsBuilt (n : ℕ) (values : List F) (p : Period F) : Type 0 where
    pub same_bars : bars_from_values values ≡ ok p.bars
    pub many : length p.bars ≡ suc n
    pub built_labels : length p.x_labels ≡ suc n
    pub built_benchmark : HasBars (suc n) p.benchmark_bars

  period-IsBuilt :
      (seed : ℤ) (name : PeriodName) (n : ℕ) (values : List F) (keys : List ℕ) (b : Benchmarks F)
      (weights : F × F) (base : F)
      → length values ≡ suc (suc n)
      → length keys ≡ suc (suc n)
      → Outcome
          (IsBuilt n values)
          (build_chart_period seed name values keys (some (b, weights, base)))
  unfolding build_chart_period
  period-IsBuilt seed name n values keys b weights base by_values by_keys =
      given-Outcome (λ bs. length bs ≡ length values - 1) (IsBuilt n values)
        (bars_from_values values) _ (bars_from_values-Outcome values)
        (λ bars same count.
          let many : length bars ≡ suc n = omega (arith, count, by_values) in
          bind-Outcome (HasBars (suc n)) (IsBuilt n values)
            (blended_benchmark_bars (length bars) b.kr_returns b.us_returns weights.0 weights.1
              base)
            _
            (subst⁻¹
              (λ k.
                Outcome (HasBars (suc n))
                  (blended_benchmark_bars k b.kr_returns b.us_returns weights.0 weights.1 base))
              many (blended-Outcome n b.kr_returns b.us_returns weights.0 weights.1 base))
            (λ benchmark compared.
              bind-Outcome Anything (IsBuilt n values) (avg_daily_return_pct {F = F} seed bars) _
                (avg_daily_return_pct-Outcome F seed bars)
                (λ average _.
                  bind-Outcome Anything (IsBuilt n values) (win_rate_pct F bars) _
                    (win_rate_pct-Outcome F bars)
                    (λ rate _. record {
                      same_bars = same;
                      many = many;
                      built_labels = omega (
                        arith,
                        by_keys,
                        length-labels_from 0 (rest_of keys),
                        length-rest_of keys,
                      );
                      built_benchmark = compared;
                    }))))

  -- The last days, where there are two at least, and where the most is two at least.
  pub daily-IsBuilt :
      (seed : ℤ) (name : PeriodName) (most n : ℕ) (d : List (ℕ × F)) (days : List ℕ)
      (b : Benchmarks F) (weights : F × F) (base : F)
      → HasValues d days
      → length (take_last most days) ≡ suc (suc n)
      → Outcome
          (λ p.
            (values : List F) × (values_at d (take_last most days) ≡ ok values)
            × IsBuilt n values p)
          (daily_period seed name most d days (b, weights, base))
  daily-IsBuilt seed name most n d days b weights base found count =
      given-Outcome (λ vs. length vs ≡ length (take_last most days)) _
        (values_at d (take_last most days)) _
        (values_at-Outcome d (take_last most days) (take_last-HasValues d most days found))
        (λ values same many.
          weaker-Outcome (IsBuilt n values) _
            (build_chart_period seed name values (take_last most days) (some (b, weights, base)))
            (λ p built. (values, same, built))
            (period-IsBuilt seed name n values (take_last most days) b weights base
              (omega (arith, many, count)) count))

  pub IsBuilt-IsDrawn :
      (n most : ℕ) (values : List F) (p : Period F)
      → suc n ≤ most
      → IsBuilt n values p
      → IsDrawn most p
  IsBuilt-IsDrawn n most values p low b = record {
    labelled = omega (arith, b.many, b.built_labels);
    compared = subst⁻¹ (λ k. HasBars k p.benchmark_bars) b.many b.built_benchmark;
    few = omega (arith, b.many, low);
  }

  abbrev pub IsHourly : Period F → Type 0
  IsHourly p = (p.benchmark_bars ≡ []) × (length p.x_labels ≡ length p.bars)

  pub hourly_period-IsHourly :
      (seed : ℤ) (d : List (ℕ × F)) → Outcome IsHourly (hourly_period seed d (sorted_keys d))
  unfolding build_chart_period
  hourly_period-IsHourly seed d =
      if-Outcome IsHourly (leb 2 (length (sorted_keys d))) _ (ok (empty_period this_day))
        (λ two.
          given-Outcome (λ vs. length vs ≡ length (sorted_keys d)) IsHourly
            (values_at d (sorted_keys d)) _
            (values_at-Outcome d (sorted_keys d) (sorted_keys-HasValues d))
            (λ values _ count.
              bind-Outcome (λ bs. length bs ≡ length values - 1) IsHourly (bars_from_values values)
                _ (bars_from_values-Outcome values)
                (λ bars many.
                  bind-Outcome Anything IsHourly (avg_daily_return_pct {F = F} seed bars) _
                    (avg_daily_return_pct-Outcome F seed bars)
                    (λ average _.
                      bind-Outcome Anything IsHourly (win_rate_pct F bars) _
                        (win_rate_pct-Outcome F bars)
                        (λ rate _. (
                          refl,
                          omega (
                            arith,
                            many,
                            count,
                            length-labels_from 0 (rest_of (sorted_keys d)),
                            length-rest_of (sorted_keys d),
                          ),
                        ))))))
        (λ _. (refl, refl))
