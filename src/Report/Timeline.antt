-- ===== src/Report/Timeline.antt =====
-- The trades that a report lists, of core/report/extras.py.
use toss_invest_ai.Prelude.{◌≤◌, ◌/◌, ◌⊎◌, true, List, [], ◌∷◌, ◌++◌, ◌≡◌}
use toss_invest_ai.Prelude.Lists.{All, AnyOf, length}
use toss_invest_ai.Models.{Market, Mode}
use toss_invest_ai.World.{World}
use toss_invest_ai.Simulation.{same_market}
use toss_invest_ai.Store.Rows.{TradeRow, trades_for_mode}
use toss_invest_ai.Report.Among.{IsAmong}

module _ {F : Type 0} where
  -- A trade of the day of UTC that it is now, or of a later one, in one of these markets. The days
  -- are counted from the epoch, the times are seconds.
  abbrev pub IsToday : List Market → World F → TradeRow F → Type 0
  IsToday markets w t =
      (w.now / 86_400 ≤ t.created_at / 86_400) × AnyOf (λ m. same_market t.market m ≡ true) markets

  -- No trade is newer than the one before it.
  abbrev pub IsNewestFirst : List (TradeRow F) → Type 0
  IsNewestFirst [] = Unit
  IsNewestFirst (t ∷ ts) =
      All (λ (s : TradeRow F). s.created_at ≤ t.created_at) ts × IsNewestFirst ts

  -- The trades ts are a timeline, with these left out.
  pub record IsTimeline (markets : List Market) (mode : Mode) (w : World F)
      (ts rest : List (TradeRow F)) : Type 0 where
    pub of_today : All (IsToday markets w) ts
    -- those left out are not newer than any of the timeline
    pub newest_first : IsNewestFirst (ts ++ rest)
    -- of the table, every trade of today in the markets is listed or left out
    pub complete :
        (t : TradeRow F)
        → IsAmong (trades_for_mode mode w.database) t
        → IsToday markets w t
        → IsAmong (ts ++ rest) t
    -- and none is left out while there is room
    pub full : (length ts ≡ 8) ⊎ ((length ts ≤ 8) × (rest ≡ []))
