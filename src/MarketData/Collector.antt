-- ===== src/MarketData/Collector.antt =====
-- core/market_data/collector.py. The symbols are collected one after the other, as if
-- `asyncio.gather` ran each to its end.
use toss_invest_ai.Prelude.{
  ℕ, String, string_equality, Bool, false, ◌&&◌, not, Option, none, some, List, [], ◌∷◌, map, ◌==◌,
  leb, if◌then◌else◌,
}
use toss_invest_ai.Prelude.Int.{pos}
use toss_invest_ai.Prelude.Lists.{length}
use toss_invest_ai.Prelude.Dict.{insert}
use toss_invest_ai.Float.{Float, ◌⊖◌, ◌⊗◌, of_int, divide, equal}
use toss_invest_ai.Config.{run_mode}
use toss_invest_ai.Models.{Market, kr, PriceData, Result, ok, err, zero_division_error}
use toss_invest_ai.World.{
  World, Exchange, Action, Query, query, lift, pure, ◌>>=◌, publish_event, news_summary,
}
use toss_invest_ai.MarketData.Indicators.{calculate_volume_ratio}

pub record Candle (F : Type 0) : Type 0 where
  -- `none` is a missing key
  pub open_price : Option F
  pub close : F
  pub volume : Option F

pub data Timeframe : Type 0 where
  quarter_hour day : Timeframe

-- The candles of the exchange, the summaries of the news, and the indicators of the library `ta`.
pub record Source (F : Type 0) : Type 0 where
  pub candles : String → Timeframe → Query F (List (Candle F))
  pub news : String → Query F String
  pub rsi : List F → F
  pub macd : List F → F × F
  pub ema : List F → ℕ → F
  pub bollinger : List F → F × F

abbrev pub no_news : String
no_news = "뉴스 없음"

abbrev when : {A : Type 0} → Bool → A → Option A
when b a = if b then some a else none

module _ {F : Type 0} where
  -- `cs[-1]` and `cs[-2]`: the last two candles, if there are two.
  unfoldable pub last_two : List (Candle F) → Option (Candle F × Candle F)
  last_two [] = none
  last_two (a ∷ []) = none
  last_two (a ∷ b ∷ []) = some (a, b)
  last_two (a ∷ b ∷ c ∷ cs) = last_two (b ∷ c ∷ cs)

  abbrev pub closes : List (Candle F) → List F
  closes = map (λ (c : Candle F). c.close)

module _ {F : Type 0} ⦃f : Float F⦄ where
  abbrev pub is_zero : F → Bool
  is_zero v = equal v (of_int (pos 0))

  abbrev or_none : Option F → F
  or_none none = of_int (pos 0)
  or_none (some v) = v

  -- `(v - base) / base * 100`
  abbrev percent : F → F → Result (Option F)
  percent v base = elim (divide (v ⊖ base) base) [
    | none ↦ err zero_division_error
    | some share ↦ ok (some (share ⊗ of_int (pos 100)))
  ]

  -- `if day_open`
  abbrev pub known_open : Option F → Option F
  known_open none = none
  known_open (some v) = if is_zero v then none else some v

  abbrev gap : Option F → F → Result (Option F)
  gap none base = ok none
  gap (some v) base = percent v base

  abbrev with_base : PriceData F → F → F → Option F → Result (PriceData F)
  with_base p base last day_open = elim (percent last base) [
    | err e ↦ err e
    | ok change ↦ elim (gap day_open base) [
      | err e ↦ err e
      | ok g ↦ ok (record p { day_change_pct = change; day_open = day_open; gap_pct = g })
    ]
  ]

  -- What the last two days say: the volumes, the change and the gap.
  abbrev pub with_days : PriceData F → Option (Candle F × Candle F) → Result (PriceData F)
  with_days p none = ok p
  with_days p (some (before, last)) =
      elim (calculate_volume_ratio (or_none last.volume) (or_none before.volume)) [
        | err e ↦ err e
        | ok ratio ↦
            let p' : PriceData F = record p { volume_ratio = some ratio } in
            if is_zero before.close
            then ok p'
            else with_base p' before.close last.close (known_open last.open_price)
      ]

module _ {F : Type 0} ⦃f : Float F⦄ (x : Exchange F) (source : Source F) where
  -- The entry before the last two days are looked at.
  abbrev pub first_entry : F → List (Candle F) → List (Candle F) → PriceData F
  first_entry price quarter days =
      let cs = closes days in
      let n = length cs in
      record {
        price = some price;
        candles_15m = closes quarter;
        rsi_14 = when (leb 15 n) (source.rsi cs);
        macd = when (leb 15 n) (source.macd cs);
        bollinger = when (leb 15 n) (source.bollinger cs);
        ema_20 = when (leb 20 n) (source.ema cs 20);
        ema_60 = when (leb 60 n) (source.ema cs 60);
        volume_ratio = none;
        day_change_pct = none;
        gap_pct = none;
        day_open = none;
        vi_triggered = false;
        news_summary = no_news;
      }

  -- A failure of the warnings or the news is logged, and the entry goes on without them.
  abbrev pub restricted : Market → String → World F → Bool
  restricted kr symbol w = elim (x.warnings symbol w) [ ok r ↦ r.has_restriction | err e ↦ false ]
  restricted _ symbol w = false

  abbrev pub summary : String → World F → String
  summary symbol w = elim (source.news symbol w) [ ok s ↦ s | err e ↦ no_news ]

  abbrev announce_news : Market → String → String → Action F (Unit {0})
  announce_news market symbol text w =
      if not (text == "") && not (text == no_news)
      then publish_event (run_mode w.settings) (some market) (news_summary symbol text) w
      else (ok tt, w)

  abbrev with_texts : Market → String → PriceData F → Action F (PriceData F)
  with_texts market symbol p w =
      (do
        _ ← announce_news market symbol (summary symbol w)
        pure (record p {
          vi_triggered = restricted market symbol w;
          news_summary = summary symbol w;
        }))
        w

  unfoldable pub collect_symbol : Market → String → Action F (PriceData F)
  collect_symbol market symbol = do
    price ← query (x.price symbol)
    quarter ← query (source.candles symbol quarter_hour)
    days ← query (source.candles symbol day)
    p ← lift (with_days (first_entry price quarter days) (last_two days))
    with_texts market symbol p

  -- `dict(zip(symbols, entries))`, with the entries so far.
  unfoldable pub collect_symbols :
      Market → List (String × PriceData F) → List String → Action F (List (String × PriceData F))
  collect_symbols market done [] w = (ok done, w)
  collect_symbols market done (s ∷ ss) w =
      (do p ← collect_symbol market s; collect_symbols market (insert s p done) ss) w
