-- ===== src/Trading/Executor/FillInSync.antt =====
-- A purchase and a sale in the virtual portfolio keep the memory of the process and the two tables
-- in step.
use toss_invest_ai.Prelude.{
  String, string_equality, Option, none, some, List, [], ◌∷◌, ◌++◌, ◌≡◌, ◌≢◌, refl, sym, ◌∙◌, inl,
  inr, arith, if◌then◌else◌, Option-cases,
}
use toss_invest_ai.Prelude.Int.{ℤ, pos, ◌<ℤ◌, ◌≤ℤ◌, eq_ℤ, int_laws, -ℤ_parts}
use toss_invest_ai.Prelude.Lists.{All}
use toss_invest_ai.Prelude.Dict.{lookup, insert, erase, insert-NodupKeys, erase-NodupKeys}
use toss_invest_ai.Float.{Float, of_int, ◌⊕◌, ◌⊖◌, ◌⊗◌}
use toss_invest_ai.Models.{Order, ok, err, Result-cases, zero_division_error, buy, sell}
use toss_invest_ai.World.{
  World, Exchange, SimPosition, SimulationPortfolio, SimulationTrade, SimulationPosition,
}
use toss_invest_ai.Simulation.{
  apply_buy, apply_sell, bought, sold, upsert_position, delete_positions, row_of,
}
use toss_invest_ai.Simulation.InSync.{
  InSync, IsHeld, KeepsNumeric, load_cash-snoc, upsert_position-rows_of, delete_positions-rows_of,
}
use toss_invest_ai.Trading.Executor.Fill.{buy_in_portfolio, sell_in_portfolio, Outcome}

module _ {F : Type 0} where
  -- A held stock keeps its market: an order names the market of the position.
  abbrev pub SameMarket : Order F → List (String × SimPosition F) → Type 0
  SameMarket o ps = (old : SimPosition F) → lookup o.symbol ps ≡ some old → old.market ≡ o.market

  insert-IsHeld :
      (s : String) (p : SimPosition F) (ps : List (String × SimPosition F))
      → pos 0 <ℤ p.qty
      → All IsHeld ps
      → All IsHeld (insert s p ps)
  unfolding insert
  insert-IsHeld s p [] h a = (h, tt)
  insert-IsHeld s p ((i, q) ∷ ps) h a = ground (arith, insert-IsHeld s p ps h a.1)

  erase-IsHeld :
      (s : String) (ps : List (String × SimPosition F)) → All IsHeld ps → All IsHeld (erase s ps)
  unfolding erase
  erase-IsHeld s [] a = tt
  erase-IsHeld s ((i, q) ∷ ps) a = ground (arith, erase-IsHeld s ps a.1)

  lookup-held :
      (s : String) (p : SimPosition F) (ps : List (String × SimPosition F))
      → All IsHeld ps
      → lookup s ps ≡ some p
      → pos 0 <ℤ p.qty
  unfolding lookup
  lookup-held s p [] a h = cc
  lookup-held s p ((i, q) ∷ ps) a h = ground (arith, lookup-held s p ps a.1)

module _ {F : Type 0} ⦃f : Float F⦄ (x : Exchange F) (k : KeepsNumeric x) (o : Order F) (fill : F)
    (commission : ℤ) (w : World F) (p : SimulationPortfolio F) where
  bought_positive :
      (q : SimPosition F)
      → All IsHeld p.positions
      → pos 0 <ℤ o.quantity
      → bought (lookup o.symbol p.positions) o.quantity fill o.market ≡ some q
      → (pos 0 <ℤ q.qty) × (q.market ≡ o.market)
  unfolding bought
  bought_positive q a h e = elim (Option-cases (lookup o.symbol p.positions)) [
    | inl n ↦ ground arith
    | inr (old, n) ↦ grind (int_laws, lookup-held o.symbol old p.positions a n)
  ]

  -- The row that a fill adds to simulation_trades.
  abbrev trade_row : Option ℤ → SimulationTrade F
  trade_row pnl = record {
    symbol = o.symbol;
    market = o.market;
    action = o.action;
    quantity = o.quantity;
    fill_price = x.numeric_column fill;
    commission_krw = commission;
    pnl_krw = pnl;
    created_at = w.now;
  }

  abbrev after_buy : SimPosition F → SimulationPortfolio F
  after_buy q = record {
    cash = p.cash ⊖ (fill ⊗ of_int o.quantity ⊕ of_int commission);
    positions = insert o.symbol q p.positions;
  }

  abbrev world_with : SimulationPortfolio F → List (SimulationPosition F) → Option ℤ → World F
  world_with p' rows pnl = record w {
    memory = some p';
    database = record w.database {
      simulation_positions = rows;
      simulation_trades = w.database.simulation_trades ++ (trade_row pnl ∷ []);
    };
  }

  buy_in_portfolio-effect :
      (q : SimPosition F)
      → bought (lookup o.symbol p.positions) o.quantity fill o.market ≡ some q
      → (buy_in_portfolio x p o fill commission w).1
        ≡ world_with
            (after_buy q)
            (upsert_position (row_of x o.symbol q) w.database.simulation_positions)
            none
  unfolding buy_in_portfolio apply_buy
  buy_in_portfolio-effect q e = ground arith

  buy_in_portfolio-fails :
      bought (lookup o.symbol p.positions) o.quantity fill o.market ≡ none
      → (buy_in_portfolio x p o fill commission w).0 ≡ err zero_division_error
  unfolding buy_in_portfolio apply_buy
  buy_in_portfolio-fails e = ground arith

  after_buy-InSync :
      (q : SimPosition F)
      → InSync x w p
      → SameMarket o p.positions
      → o.action ≡ buy
      → pos 0 <ℤ o.quantity
      → bought (lookup o.symbol p.positions) o.quantity fill o.market ≡ some q
      → InSync x
          (world_with
            (after_buy q)
            (upsert_position (row_of x o.symbol q) w.database.simulation_positions)
            none)
          (after_buy q)
  after_buy-InSync q s same action positive e =
      let (qty, market) = bought_positive q s.positive positive e in
      let agrees = λ (old : SimPosition F) (h : lookup o.symbol p.positions ≡ some old).
        same old h ∙ sym market in
      record {
        held = inr refl;
        rows = rw s.rows (upsert_position-rows_of x o.symbol q p.positions agrees);
        once = insert-NodupKeys o.symbol q p.positions s.once;
        positive = insert-IsHeld o.symbol q p.positions qty s.positive;
        cash = ground (
          arith,
          load_cash-snoc x (of_int w.settings.initial_seed_krw) w.database.simulation_trades
              (trade_row none),
          k fill,
        );
      }

  pub buy_in_portfolio-InSync :
      {out : Outcome F}
      → InSync x w p
      → SameMarket o p.positions
      → o.action ≡ buy
      → pos 0 <ℤ o.quantity
      → (buy_in_portfolio x p o fill commission w).0 ≡ ok out
      → (p' : SimulationPortfolio F) × InSync x (buy_in_portfolio x p o fill commission w).1 p'
  buy_in_portfolio-InSync s same action positive e =
      elim (Option-cases (bought (lookup o.symbol p.positions) o.quantity fill o.market)) [
        | inl n ↦ cc (buy_in_portfolio-fails n)
        | inr (q, n) ↦ (
          after_buy q,
          rw (buy_in_portfolio-effect q n) (after_buy-InSync q s same action positive n),
        )
      ]

  abbrev after_sale : List (String × SimPosition F) → SimulationPortfolio F
  after_sale ps = record {
    cash = p.cash ⊕ (fill ⊗ of_int o.quantity ⊖ of_int commission);
    positions = ps;
  }

  -- The positions that a sale leaves, and their rows.
  abbrev left_positions : SimPosition F → List (String × SimPosition F)
  left_positions q =
      if eq_ℤ q.qty o.quantity
      then erase o.symbol p.positions
      else insert o.symbol (sold q o.quantity) p.positions

  abbrev left_rows : SimPosition F → List (SimulationPosition F)
  left_rows q =
      if eq_ℤ q.qty o.quantity
      then delete_positions o.symbol w.database.simulation_positions
      else upsert_position (row_of x o.symbol (sold q o.quantity)) w.database.simulation_positions

  sell_in_portfolio-fails :
      {out : Outcome F}
      → lookup o.symbol p.positions ≡ none
      → (sell_in_portfolio x p o fill commission w).0 ≢ ok out
  unfolding sell_in_portfolio
  sell_in_portfolio-fails n e = ground arith

  sell_in_portfolio-effect :
      {out : Outcome F} (q : SimPosition F)
      → lookup o.symbol p.positions ≡ some q
      → (sell_in_portfolio x p o fill commission w).0 ≡ ok out
      → (stored : ℤ) × ((sell_in_portfolio x p o fill commission w).1
          ≡ world_with (after_sale (left_positions q)) (left_rows q) (some stored))
  unfolding sell_in_portfolio apply_sell
  sell_in_portfolio-effect q n e =
      elim (Result-cases
        (x.integer_column ((fill ⊖ q.avg_price) ⊗ of_int o.quantity ⊖ of_int commission))) [
          | inl (stored, h) ↦ (stored, ground arith)
          | inr (failure, h) ↦ ground arith
        ]

  same_position :
      (q : SimPosition F)
      → lookup o.symbol p.positions ≡ some q
      → (old : SimPosition F) → lookup o.symbol p.positions ≡ some old
      → old.market ≡ q.market
  same_position q n old h = ground arith

  left_positions-InSync :
      (q : SimPosition F) (stored : ℤ)
      → InSync x w p
      → o.action ≡ sell
      → lookup o.symbol p.positions ≡ some q
      → o.quantity ≤ℤ q.qty
      → InSync x
          (world_with (after_sale (left_positions q)) (left_rows q) (some stored))
          (after_sale (left_positions q))
  left_positions-InSync q stored s action n covered = record {
    held = inr refl;
    rows = ground (
      arith,
      s.rows,
      delete_positions-rows_of x o.symbol p.positions s.once,
      upsert_position-rows_of x o.symbol (sold q o.quantity) p.positions (same_position q n),
    );
    once = ground (
      arith,
      erase-NodupKeys o.symbol p.positions s.once,
      insert-NodupKeys o.symbol (sold q o.quantity) p.positions s.once,
    );
    positive = ground (
      arith,
      -ℤ_parts q.qty o.quantity,
      erase-IsHeld o.symbol p.positions s.positive,
      insert-IsHeld o.symbol (sold q o.quantity) p.positions,
    );
    cash = ground (
      arith,
      load_cash-snoc x (of_int w.settings.initial_seed_krw) w.database.simulation_trades
          (trade_row (some stored)),
      k fill,
    );
  }

  pub sell_in_portfolio-InSync :
      {out : Outcome F}
      → InSync x w p
      → o.action ≡ sell
      → ((q : SimPosition F) → lookup o.symbol p.positions ≡ some q → o.quantity ≤ℤ q.qty)
      → (sell_in_portfolio x p o fill commission w).0 ≡ ok out
      → (p' : SimulationPortfolio F) × InSync x (sell_in_portfolio x p o fill commission w).1 p'
  sell_in_portfolio-InSync s action covered e = elim (Option-cases (lookup o.symbol p.positions)) [
    | inl n ↦ absurd (sell_in_portfolio-fails n e)
    | inr (q, n) ↦
        let (stored, effect) = sell_in_portfolio-effect q n e in
        (
          after_sale (left_positions q),
          rw effect (left_positions-InSync q stored s action n (covered q n)),
        )
  ]
