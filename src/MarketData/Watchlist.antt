-- ===== src/MarketData/Watchlist.antt =====
-- core/market_data/watchlist.py, with the query and the writes of core/db/store.py behind it.
use toss_invest_ai.Prelude.{
  String, string_equality, Option, none, some, List, [], ◌∷◌, not, ◌==◌, if◌then◌else◌,
}
use toss_invest_ai.Prelude.Int.{ℤ, ltb_ℤ}
use toss_invest_ai.Prelude.Lists.{keep}
use toss_invest_ai.Models.{Market}
use toss_invest_ai.World.{World, WatchlistItem}
use toss_invest_ai.Simulation.{same_market}

-- `ORDER BY priority DESC`; equal priorities stay in the order of the table.
unfoldable pub placed_by_priority : WatchlistItem → List WatchlistItem → List WatchlistItem
placed_by_priority i [] = i ∷ []
placed_by_priority i (j ∷ js) =
    if ltb_ℤ i.priority j.priority then j ∷ placed_by_priority i js else i ∷ j ∷ js

unfoldable pub by_priority : List WatchlistItem → List WatchlistItem
by_priority [] = []
by_priority (i ∷ is) = placed_by_priority i (by_priority is)

abbrev of_market : Option Market → List WatchlistItem → List WatchlistItem
of_market none is = is
of_market (some m) is = keep (λ (i : WatchlistItem). same_market i.market m) is

-- `ON CONFLICT (symbol) DO UPDATE`
unfoldable pub upsert_item : WatchlistItem → List WatchlistItem → List WatchlistItem
upsert_item i [] = i ∷ []
upsert_item i (j ∷ js) = if j.symbol == i.symbol then i ∷ js else j ∷ upsert_item i js

module _ {F : Type 0} where
  unfoldable pub get_watchlist : Option Market → World F → List WatchlistItem
  get_watchlist market w = by_priority (of_market market w.database.watchlist)

  abbrev with_watchlist : (List WatchlistItem → List WatchlistItem) → World F → World F
  with_watchlist g w = record w {
    database = record w.database { watchlist = g w.database.watchlist };
  }

  unfoldable pub add_symbol : String → Market → ℤ → World F → World F
  add_symbol symbol market priority =
      with_watchlist
        (upsert_item (record { symbol = symbol; market = market; priority = priority }))

  unfoldable pub remove_symbol : String → World F → World F
  remove_symbol symbol = with_watchlist (keep (λ (i : WatchlistItem). not (i.symbol == symbol)))
