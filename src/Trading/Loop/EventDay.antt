-- ===== src/Trading/Loop/EventDay.antt =====
-- A pass of core/trading/loop.py on a day with an event in the calendar.
use mathlib.Core.Path.{subst⁻¹}
use toss_invest_ai.Prelude.{
  String, string_equality, List, [], ◌∷◌, ◌≡◌, ◌≢◌, refl, ◌∙◌, sym, arith, some,
}
use toss_invest_ai.Prelude.Dict.{insert}
use toss_invest_ai.Float.{Float}
use toss_invest_ai.Models.{Market, Decision, Result, ok, err, Error, StateSnapshot, PriceData}
use toss_invest_ai.World.{bind-cases, const, World, Exchange, query, ◌>>=◌}
use toss_invest_ai.MarketData.Watchlist.{get_watchlist}
use toss_invest_ai.MarketData.Collector.{Source, collect_symbol, collect_symbols}
use toss_invest_ai.MarketData.Snapshot.{MarketSnapshot, collect_market_snapshot, after_prices}
use toss_invest_ai.Trading.Executor.Guard.{Untouched}
use toss_invest_ai.Trading.Loop.Deciding.{decide}
use toss_invest_ai.Trading.Loop.Pass.{
  Means, symbols_of, read_state, get_events_today, build_state_snapshot, record_decision,
  recorded_pass, open_pass, run_loop,
}
use toss_invest_ai.Trading.Loop.Kept.{
  Untouched-refl, Untouched-trans, build_state_snapshot-Untouched, decide-Untouched,
}

module _ {F : Type 0} where
  -- The tables and the clock are the same.
  abbrev SameData : World F → World F → Type 0
  SameData w w' = (w'.database ≡ w.database) × (w'.now ≡ w.now)

  SameData-events :
      (market : Market) (w w' : World F)
      → SameData w w'
      → get_events_today market w' ≡ get_events_today market w
  unfolding get_events_today
  SameData-events market w w' (h, h') = rw (h, h') refl

module _ {F : Type 0} ⦃f : Float F⦄ (x : Exchange F) (source : Source F) (market : Market) where
  collect_symbol-SameData :
      (s : String) (w : World F) → SameData w (collect_symbol x source market s w).1
  unfolding collect_symbol
  collect_symbol-SameData s w = ground arith

  collect_symbols-SameData :
      (done : List (String × PriceData F)) (ss : List String) (w : World F)
      → SameData w (collect_symbols x source market done ss w).1
  unfolding collect_symbols
  collect_symbols-SameData done [] w = (refl, refl)
  collect_symbols-SameData done (s ∷ ss) w =
      let (h, h') = collect_symbol-SameData s w in
      bind-cases (collect_symbol x source market s)
        (λ p. collect_symbols x source market (insert s p done) ss) (SameData w) w (λ _ _. (h, h'))
        (λ p _.
          let (k, k') =
            collect_symbols-SameData (insert s p done) ss (collect_symbol x source market s w).1 in
          (k ∙ h, k' ∙ h'))

  after_prices-SameData :
      (w : World F) (q : Result (List (String × PriceData F)) × World F)
      → SameData w q.1
      → SameData w (after_prices x source market q).1
  after_prices-SameData w (ok prices, w') h = h
  after_prices-SameData w (err e, w') h = h

  collect_market_snapshot-SameData :
      (ss : List String) (w : World F) → SameData w (collect_market_snapshot x source market ss w).1
  unfolding collect_market_snapshot
  collect_market_snapshot-SameData ss w =
      after_prices-SameData w (collect_symbols x source market [] ss w)
        (collect_symbols-SameData [] ss w)

module _ {F : Type 0} ⦃f : Float F⦄ (x : Exchange F) (p : Means F) (market : Market) where
  read_state-events :
      (q : Result (MarketSnapshot F) × World F) (state : StateSnapshot F)
      → ((const q >>= λ snapshot. query (read_state x p market snapshot)) q.1).0 ≡ ok state
      → state.market_events_today ≡ get_events_today market q.1
  read_state-events (ok snapshot, w) state h = ground (arith, h)
  read_state-events (err e, w) state h = ground (arith, h)

  -- The snapshot of a pass has the events of the day.
  build_state_snapshot-events :
      (w : World F) (state : StateSnapshot F)
      → (build_state_snapshot x p market w).0 ≡ ok state
      → state.market_events_today ≡ get_events_today market w
  unfolding build_state_snapshot
  build_state_snapshot-events w state h =
      let q =
        collect_market_snapshot x p.source market (symbols_of (get_watchlist (some market) w)) w in
      read_state-events q state h
      ∙ SameData-events market w q.1 (
          collect_market_snapshot-SameData x p.source market
            (symbols_of (get_watchlist (some market) w)) w)

  -- The driver takes no snapshot with an event, as `json` has no encoding for a `datetime`.
  abbrev pub RefusesEvents : Type 0
  RefusesEvents =
      (state : StateSnapshot F)
      → state.market_events_today ≢ []
      → (e : Error) × (p.json_column state ≡ err e)

  refused_record :
      (state : StateSnapshot F) (d : Decision F) (w : World F)
      → RefusesEvents
      → state.market_events_today ≢ []
      → (recorded_pass x p market state d w).1 ≡ w
  unfolding record_decision
  refused_record state d w refuses some_event =
      let (e, h) = refuses state some_event in ground (arith, h)

  refused_pass :
      (state : StateSnapshot F) (w w' : World F)
      → RefusesEvents
      → state.market_events_today ≢ []
      → Untouched w w'
      → Untouched w ((decide x p.python p.services state >>= recorded_pass x p market state) w').1
  refused_pass state w w' refuses some_event kept =
      let m = decide x p.python p.services state in
      let here = Untouched-trans w w' (m w').1 kept (decide-Untouched x p state w') in
      bind-cases m (recorded_pass x p market state) (Untouched w) w' (λ _ _. here)
        (λ d _. subst⁻¹ (Untouched w) (refused_record state d (m w').1 refuses some_event) here)

  open_pass-event_day :
      (w : World F)
      → RefusesEvents
      → get_events_today market w ≢ []
      → Untouched w (open_pass x p market w).1
  open_pass-event_day w refuses some_event =
      let kept = build_state_snapshot-Untouched x p market w in
      bind-cases (build_state_snapshot x p market)
        (λ state. decide x p.python p.services state >>= recorded_pass x p market state)
        (Untouched w) w (λ _ _. kept)
        (λ state built.
          refused_pass state w (build_state_snapshot x p market w).1 refuses
            (λ none_there.
              some_event (sym (build_state_snapshot-events w state built) ∙ none_there))
            kept)

  -- If the driver refuses each snapshot with an event in a JSON column, then on a day with an event
  -- of the market a pass leaves the exchange, the portfolios, the tables of trades and orders and
  -- the trade log as they were.
  pub run_loop-event_day :
      (w : World F)
      → RefusesEvents
      → get_events_today market w ≢ []
      → Untouched w (run_loop x p market w).1
  unfolding run_loop
  run_loop-event_day w refuses some_event =
      ground (arith, open_pass-event_day w refuses some_event, Untouched-refl w)
