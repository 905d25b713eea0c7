-- ===== src/Trading/Loop/Kept.antt =====
-- The parts of a pass of core/trading/loop.py and what the executor works on.
use toss_invest_ai.Prelude.{some, String, string_equality, List, [], ◌∷◌, ◌≡◌, arith}
use toss_invest_ai.Prelude.Dict.{insert}
use toss_invest_ai.Float.{Float}
use toss_invest_ai.Models.{Market, Decision, Result, ok, err, StateSnapshot, PriceData}
use toss_invest_ai.World.{World, Exchange, Action, query, bind-cases, ◌>>=◌}
use toss_invest_ai.Fund.Usage.{record_api_usage}
use toss_invest_ai.MarketData.Watchlist.{get_watchlist}
use toss_invest_ai.MarketData.Collector.{Source, collect_symbol, collect_symbols}
use toss_invest_ai.MarketData.Snapshot.{collect_market_snapshot, after_prices}
use toss_invest_ai.Gateway.Json.{Python}
use toss_invest_ai.Gateway.Services.{Services, claude_decide, deepseek_decide}
use toss_invest_ai.Trading.Executor.Guard.{Untouched}
use toss_invest_ai.Trading.Loop.Deciding.{decide}
use toss_invest_ai.Trading.Loop.Pass.{
  symbols_of, read_state, Means, build_state_snapshot, record_decision, publish_status_update,
}

module _ {F : Type 0} where
  pub Untouched-refl : (w : World F) → Untouched w w
  Untouched-refl w = ground arith

  pub Untouched-trans : (w w' w'' : World F) → Untouched w w' → Untouched w' w'' → Untouched w w''
  Untouched-trans w w' w'' h h' = ground (arith, h, h')

  pub bind-Untouched :
      {A B : Type 0} (m : Action F A) (k : A → Action F B) (w : World F)
      → Untouched w (m w).1
      → ((a : A) (w' : World F) → Untouched w' (k a w').1)
      → Untouched w ((m >>= k) w).1
  bind-Untouched m k w first rest =
      bind-cases m k (Untouched w) w (λ _ _. first)
        (λ a _. Untouched-trans w (m w).1 (k a (m w).1).1 first (rest a (m w).1))

module _ {F : Type 0} ⦃f : Float F⦄ (x : Exchange F) where
  collect_symbol-Untouched :
      (source : Source F) (market : Market) (s : String) (w : World F)
      → Untouched w (collect_symbol x source market s w).1
  unfolding collect_symbol
  collect_symbol-Untouched source market s w = ground arith

  collect_symbols-Untouched :
      (source : Source F) (market : Market) (done : List (String × PriceData F)) (ss : List String)
      (w : World F)
      → Untouched w (collect_symbols x source market done ss w).1
  unfolding collect_symbols
  collect_symbols-Untouched source market done [] w = Untouched-refl w
  collect_symbols-Untouched source market done (s ∷ ss) w =
      bind-Untouched (collect_symbol x source market s)
        (λ p. collect_symbols x source market (insert s p done) ss) w
        (collect_symbol-Untouched source market s w)
        (λ p w'. collect_symbols-Untouched source market (insert s p done) ss w')

  after_prices-Untouched :
      (source : Source F) (w : World F) (market : Market)
      (q : Result (List (String × PriceData F)) × World F)
      → Untouched w q.1
      → Untouched w (after_prices x source market q).1
  after_prices-Untouched source w market (ok prices, w') h = h
  after_prices-Untouched source w market (err e, w') h = h

  collect_market_snapshot-Untouched :
      (source : Source F) (market : Market) (ss : List String) (w : World F)
      → Untouched w (collect_market_snapshot x source market ss w).1
  unfolding collect_market_snapshot
  collect_market_snapshot-Untouched source market ss w =
      after_prices-Untouched source w market (collect_symbols x source market [] ss w)
        (collect_symbols-Untouched source market [] ss w)

  claude_decide-Untouched :
      (py : Python F) (s : Services F) (state : StateSnapshot F) (w : World F)
      → Untouched w (claude_decide x py s state w).1
  unfolding claude_decide record_api_usage
  claude_decide-Untouched py s state w = ground arith

  deepseek_decide-same :
      (py : Python F) (s : Services F) (state : StateSnapshot F) (w : World F)
      → (deepseek_decide x py s state w).1 ≡ w
  unfolding deepseek_decide
  deepseek_decide-same py s state w = ground arith

  module _ (p : Means F) where
    pub build_state_snapshot-Untouched :
        (market : Market) (w : World F) → Untouched w (build_state_snapshot x p market w).1
    unfolding build_state_snapshot
    build_state_snapshot-Untouched market w =
        let symbols = symbols_of (get_watchlist (some market) w) in
        bind-Untouched (collect_market_snapshot x p.source market symbols)
          (λ snapshot. query (read_state x p market snapshot)) w
          (collect_market_snapshot-Untouched p.source market symbols w) (λ _. Untouched-refl)

    pub decide-Untouched :
        (state : StateSnapshot F) (w : World F)
        → Untouched w (decide x p.python p.services state w).1
    unfolding decide
    decide-Untouched state w = ground (
      arith,
      claude_decide-Untouched p.python p.services state w,
      deepseek_decide-same p.python p.services state
          (claude_decide x p.python p.services state w).1,
    )

    pub record_decision-Untouched :
        (state : StateSnapshot F) (d : Decision F) (w : World F)
        → Untouched w (record_decision x p state d w).1
    unfolding record_decision
    record_decision-Untouched state d w = ground arith

    pub publish_status_update-Untouched :
        (w : World F) → Untouched w (publish_status_update x p w).1
    unfolding publish_status_update
    publish_status_update-Untouched w = ground arith
