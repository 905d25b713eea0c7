-- ===== src/MarketData/Snapshot.antt =====
-- `collect_market_snapshot` of core/market_data/collector.py, with the figures over all symbols.
use toss_invest_ai.Prelude.{
  ℕ, nat_eq, zero, suc, ◌*◌, String, Option, none, some, List, [], ◌∷◌, if◌then◌else◌,
}
use toss_invest_ai.Prelude.Int.{ℤ, pos}
use toss_invest_ai.Prelude.Lists.{keep}
use toss_invest_ai.Float.{Float, of_int, divide, less}
use toss_invest_ai.Models.{
  Market, PriceData, Result, ok, err, or_error, ◌>>=◌, zero_division_error, rounded,
}
use toss_invest_ai.World.{World, Exchange, Holding, Action}
use toss_invest_ai.Simulation.{same_market}
use toss_invest_ai.MarketData.Collector.{Source, collect_symbols}

-- The first so many.
abbrev pub take : {A : Type 0} → ℕ → List A → List A
take zero xs = []
take (suc n) [] = []
take (suc n) (x ∷ xs) = x ∷ take n xs

pub record MarketSnapshot (F : Type 0) : Type 0 where
  pub prices : List (String × PriceData F)
  pub holdings : List (Holding F)
  pub buying_power : F
  pub exchange_rate_krw_usd : F
  pub toss_popular_top10 : List String
  pub fear_greed_index : Option ℤ

module _ {F : Type 0} ⦃f : Float F⦄ where
  -- The symbols that have a ratio of volumes, the greatest first, those that came first before their
  -- equals: `sorted` with `reverse` keeps the order of equals. The entries without a ratio sort as
  -- 0, and are then left out.
  unfoldable pub placed_by_ratio : String → F → List (String × F) → List (String × F)
  placed_by_ratio symbol ratio [] = (symbol, ratio) ∷ []
  placed_by_ratio symbol ratio ((s, r) ∷ rest) =
      if less ratio r
      then (s, r) ∷ placed_by_ratio symbol ratio rest
      else (symbol, ratio) ∷ (s, r) ∷ rest

  abbrev place_entry : String → Option F → List (String × F) → List (String × F)
  place_entry symbol none rest = rest
  place_entry symbol (some ratio) rest = placed_by_ratio symbol ratio rest

  unfoldable pub by_ratio : List (String × PriceData F) → List (String × F)
  by_ratio [] = []
  by_ratio ((s, p) ∷ ps) = place_entry s p.volume_ratio (by_ratio ps)

  abbrev symbols_of : List (String × F) → List String
  symbols_of [] = []
  symbols_of ((s, _) ∷ rest) = s ∷ symbols_of rest

  unfoldable pub popular_top10 : List (String × PriceData F) → List String
  popular_top10 prices = take 10 (symbols_of (by_ratio prices))

  abbrev count_change : Option F → ℕ × ℕ → ℕ × ℕ
  count_change none (known, rising) = (known, rising)
  count_change (some change) (known, rising) =
      (suc known, if less (of_int (pos 0)) change then suc rising else rising)

  -- How many changes are known, and how many of them are gains.
  unfoldable pub changes : List (String × PriceData F) → ℕ × ℕ
  changes [] = (0, 0)
  changes ((s, p) ∷ ps) = count_change p.day_change_pct (changes ps)

  -- `round(100 * rising / known)`.
  abbrev rounded_share : F → F → Result (Option ℤ)
  rounded_share gains known = do
    share ← or_error zero_division_error (divide gains known)
    index ← rounded share
    ok (some index)

  unfoldable pub fear_greed_index : List (String × PriceData F) → Result (Option ℤ)
  fear_greed_index prices =
      let (known, rising) = changes prices in
      if nat_eq known 0
      then ok none
      else rounded_share (of_int (pos (100 * rising))) (of_int (pos known))

module _ {F : Type 0} ⦃f : Float F⦄ (x : Exchange F) (source : Source F) where
  abbrev snapshot_of : Market → List (String × PriceData F) → World F → Result (MarketSnapshot F)
  snapshot_of market prices w = do
    holdings ← x.holdings w
    cash ← x.buying_power w
    rate ← x.exchange_rate w
    index ← fear_greed_index prices
    ok (record {
      prices = prices;
      holdings = keep (λ (h : Holding F). same_market h.market market) holdings;
      buying_power = cash;
      exchange_rate_krw_usd = rate;
      toss_popular_top10 = popular_top10 prices;
      fear_greed_index = index;
    })

  abbrev pub after_prices :
      Market → Result (List (String × PriceData F)) × World F → Result (MarketSnapshot F) × World F
  after_prices market (err e, w) = (err e, w)
  after_prices market (ok prices, w) = (snapshot_of market prices w, w)

  unfoldable pub collect_market_snapshot : Market → List String → Action F (MarketSnapshot F)
  collect_market_snapshot market symbols w =
      after_prices market (collect_symbols x source market [] symbols w)
