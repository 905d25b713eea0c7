-- ===== src/Report/Summaries.antt =====
-- The summaries of the state in core/report/extras.py: the limits, the decisions of the day, the
-- sessions and the trades.
use toss_invest_ai.Prelude.{
  ℕ, ◌+◌, String, string_equality, Bool, Option, none, some, List, [], ◌∷◌, ◌++◌, leb, ltb,
  if◌then◌else◌,
}
use toss_invest_ai.Prelude.Int.{ℤ, pos, ◌-ℤ◌, ltb_ℤ, eq_ℤ}
use toss_invest_ai.Prelude.Sort.{sort_by, take}
use toss_invest_ai.Float.{Float, of_int}
use toss_invest_ai.Models.{
  Market, Mode, TradeAction, buy, sell, hold, PriceData, Result, ok, err, ◌>>=◌,
}
use toss_invest_ai.World.{World, Exchange, HoldingStatus, DecisionRow, Calendar}
use toss_invest_ai.Report.Extras.{share}
use toss_invest_ai.Store.{get_today_realized_pnl_krw, today_start_utc}
use toss_invest_ai.Store.Rows.{TradeRow, get_today_trades}
use toss_invest_ai.Store.Usage.{get_api_usage_today_summary, get_api_usage_month_summary}
use toss_invest_ai.Fund.{get_position_ratio}

pub record SafetyUsage (F : Type 0) : Type 0 where
  pub daily_loss : ℤ
  pub daily_limit : ℤ
  pub daily_usage : F
  pub cap : F
  pub positions : List (String × Option F)
  pub restricted : List String

pub record Counts : Type 0 where
  pub buys : ℕ
  pub holds : ℕ
  pub sells : ℕ

pub record AiSummary (F : Type 0) : Type 0 where
  pub today_counts : Counts
  pub latest : Option (DecisionRow F)
  pub api_calls_today : ℕ
  pub api_cost_today_krw : ℤ
  pub api_cost_month_krw : ℤ

abbrev pub counted_action : TradeAction → Counts → Counts
counted_action buy c = record c { buys = c.buys + 1 }
counted_action sell c = record c { sells = c.sells + 1 }
counted_action hold c = record c { holds = c.holds + 1 }

module _ {F : Type 0} where
  -- The symbols whose trading is interrupted, over the markets.
  abbrev pub restricted_in : List (String × PriceData F) → List String
  restricted_in [] = []
  restricted_in ((s, d) ∷ prices) =
      if d.vi_triggered then s ∷ restricted_in prices else restricted_in prices

  abbrev pub later_decision : DecisionRow F → DecisionRow F → Bool
  later_decision r q = ltb q.created_at r.created_at

  abbrev pub recent_decisions : World F → List (DecisionRow F)
  recent_decisions w = take 50 (sort_by later_decision w.database.decisions)

  unfoldable pub count_today : ℕ → List (DecisionRow F) → Counts
  count_today start [] = record { buys = 0; holds = 0; sells = 0 }
  count_today start (r ∷ rs) =
      let rest = count_today start rs in
      if leb start r.created_at then counted_action r.action rest else rest

  abbrev pub first_of : List (DecisionRow F) → Option (DecisionRow F)
  first_of [] = none
  first_of (r ∷ rs) = some r

  abbrev pub later_trade : TradeRow F → TradeRow F → Bool
  later_trade s t = ltb t.created_at s.created_at

  unfoldable pub trades_of : List Market → Mode → World F → List (TradeRow F)
  trades_of [] mode w = []
  trades_of (m ∷ ms) mode w = get_today_trades mode m w ++ trades_of ms mode w

  unfoldable pub compute_timeline : List Market → Mode → World F → List (TradeRow F)
  compute_timeline markets mode w = take 8 (sort_by later_trade (trades_of markets mode w))

module _ {F : Type 0} ⦃f : Float F⦄ (x : Exchange F) where
  -- The share of each holding, or nothing where it is not to be had.
  unfoldable pub position_ratios :
      Mode → World F → List (HoldingStatus F) → List (String × Option F)
  position_ratios mode w [] = []
  position_ratios mode w (h ∷ hs) =
      (h.symbol, elim (get_position_ratio x h.symbol mode w) [ ok r ↦ some r | err e ↦ none ])
      ∷ position_ratios mode w hs

  abbrev pub loss_of : ℤ → ℤ
  loss_of realized = if ltb_ℤ realized (pos 0) then pos 0 -ℤ realized else pos 0

  unfoldable pub compute_safety :
      List (HoldingStatus F) → List (String × PriceData F) → Mode → World F → Result (SafetyUsage F)
  compute_safety holdings prices mode w =
      let loss = loss_of (get_today_realized_pnl_krw mode w) in
      let limit = w.settings.max_daily_loss_krw in
      (do
        usage ←
            if eq_ℤ limit (pos 0) then ok (of_int (pos 0)) else share (of_int loss) (of_int limit)
        ok (record {
          daily_loss = loss;
          daily_limit = limit;
          daily_usage = usage;
          cap = w.settings.max_position_ratio;
          positions = position_ratios mode w holdings;
          restricted = restricted_in prices;
        }))

  unfoldable pub compute_ai_summary : World F → AiSummary F
  compute_ai_summary w =
      let rows = recent_decisions w in
      let today = get_api_usage_today_summary w in
      record {
        today_counts = count_today (today_start_utc w.now) rows;
        latest = first_of rows;
        api_calls_today = today.call_count;
        api_cost_today_krw = today.cost_krw;
        api_cost_month_krw = (get_api_usage_month_summary x w).cost_krw;
      }

  unfoldable pub compute_calendar : List Market → World F → List (Market × Option Calendar)
  compute_calendar [] w = []
  compute_calendar (m ∷ ms) w =
      (m, elim (x.calendar m w) [ ok c ↦ some c | err e ↦ none ]) ∷ compute_calendar ms w
