-- ===== src/Monitor/Charted.antt =====
-- The chart of core/api/monitor_snapshot.py: what it comes to.
use toss_invest_ai.Prelude.{ℕ, ◌+◌, ◌-◌, ◌≤◌, List, [], ◌≡◌}
use toss_invest_ai.Prelude.Int.{◌+ℤ◌}
use toss_invest_ai.Prelude.Lists.{length}
use toss_invest_ai.Prelude.Sort.{take_last}
use toss_invest_ai.Float.{Float}
use toss_invest_ai.World.{World}
use toss_invest_ai.Store.Usage.{sum_ℤ}
use toss_invest_ai.Monitor.Chart.{Chart}
use toss_invest_ai.Monitor.Drawn.{IsDrawn}
use toss_invest_ai.Monitor.Outcome.{Outcome}

module _ {F : Type 0} where
  pub record IsCharted (c : Chart F) : Type 0 where
    pub full_drawn : IsDrawn 60 c.full
    pub recent_drawn : IsDrawn 15 c.recent
    pub hourly_bare : c.hourly.benchmark_bars ≡ []
    pub hourly_labelled : length c.hourly.x_labels ≡ length c.hourly.bars
    -- the gains and losses add up to all bars of the whole period
    pub net : c.net_krw ≡ sum_ℤ (λ b. b) c.full.bars
    pub split : c.net_krw ≡ c.total_up_krw +ℤ c.total_down_krw
    pub days : c.up_days + c.down_days ≤ length c.full.bars

-- The days that a period of so many at most shows, but two.
abbrev beyond_two : ℕ → List ℕ → ℕ
beyond_two most days = length (take_last most days) - 2
