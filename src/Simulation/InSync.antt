-- ===== src/Simulation/InSync.antt =====
-- The tables simulation_positions and simulation_trades against the portfolio in memory: when they
-- agree, and how a purchase and a sale move both.
use toss_invest_ai.Prelude.{
  String, string_equality, true, not, none, some, List, [], ◌∷◌, ◌++◌, ◌==◌, ◌≡◌, refl, ap, ◌⊎◌,
  inl, inr, arith, Bool-cases,
}
use mathlib.Core.List.{append_assoc, append-nil}
use text.Mathlib.TextEquality.{eq_iff}
use toss_invest_ai.Prelude.Int.{pos, ◌<ℤ◌}
use toss_invest_ai.Prelude.Lists.{All, keep}
use toss_invest_ai.Prelude.Dict.{lookup, insert, erase, NodupKeys, lookup_before, insert_absent}
use toss_invest_ai.Float.{Float, of_int}
use toss_invest_ai.Models.{Market, kr, us, ok}
use toss_invest_ai.World.{
  World, SimPosition, SimulationPortfolio, SimulationPosition, SimulationTrade, Exchange,
}
use toss_invest_ai.Simulation.Load.{load, load_positions, load_cash, replay_trade}
use toss_invest_ai.Simulation.Apply.{upsert_position, delete_positions, same_market, row_of}

same_market_of_eq : (m n : Market) → m ≡ n → same_market m n ≡ true
same_market_of_eq kr kr h = refl
same_market_of_eq us us h = refl
same_market_of_eq kr us h = cc
same_market_of_eq us kr h = cc

abbrev pub IsHeld : {F : Type 0} → String × SimPosition F → Type 0
IsHeld (_, p) = pos 0 <ℤ p.qty

module _ {F : Type 0} (x : Exchange F) where
  abbrev pub rows_of : List (String × SimPosition F) → List (SimulationPosition F)
  rows_of [] = []
  rows_of ((s, p) ∷ ps) = row_of x s p ∷ rows_of ps

  -- A Numeric column gives a float back as it was written.
  abbrev pub KeepsNumeric : Type 0
  KeepsNumeric = (v : F) → x.numeric_column v ≡ v

  load_positions-rows_of :
      KeepsNumeric
      → (acc ps : List (String × SimPosition F)) → NodupKeys (acc ++ ps)
      → load_positions acc (rows_of ps) ≡ acc ++ ps
  unfolding load_positions
  load_positions-rows_of k acc [] n = rw append-nil
  load_positions-rows_of k acc ((s, p) ∷ ps) n =
      let fresh = lookup_before s p acc ps n in
      let added = insert_absent s p acc fresh in
      let regrouped = append_assoc acc ((s, p) ∷ []) ps in
      rw (k p.avg_price, added, ← regrouped)
        (load_positions-rows_of k (acc ++ ((s, p) ∷ [])) ps (rw regrouped n))

  pub upsert_position-rows_of :
      (s : String) (p : SimPosition F) (ps : List (String × SimPosition F))
      → ((old : SimPosition F) → lookup s ps ≡ some old → old.market ≡ p.market)
      → upsert_position (row_of x s p) (rows_of ps) ≡ rows_of (insert s p ps)
  unfolding upsert_position lookup insert
  upsert_position-rows_of s p [] m = refl
  upsert_position-rows_of s p ((i, q) ∷ ps) m = elim (Bool-cases (i == s)) [
    | inl same ↦ ground (arith, eq_iff i s, m q, same_market_of_eq q.market p.market)
    | inr other ↦
        let rest = upsert_position-rows_of s p ps (λ old e. m old (rw other e)) in
        rw other (ap (◌∷◌ (row_of x i q)) rest)
  ]

  keep-rows_of_absent :
      (s : String) (ps : List (String × SimPosition F))
      → lookup s ps ≡ none
      → keep (λ r. not (r.symbol == s)) (rows_of ps) ≡ rows_of ps
  unfolding lookup
  keep-rows_of_absent s [] h = refl
  keep-rows_of_absent s ((i, q) ∷ ps) h = ground (arith, keep-rows_of_absent s ps)

  pub delete_positions-rows_of :
      (s : String) (ps : List (String × SimPosition F))
      → NodupKeys ps
      → delete_positions s (rows_of ps) ≡ rows_of (erase s ps)
  unfolding delete_positions lookup erase
  delete_positions-rows_of s [] n = refl
  delete_positions-rows_of s ((i, q) ∷ ps) n =
      ground (arith, eq_iff i s, delete_positions-rows_of s ps n.1, keep-rows_of_absent s ps)

  pub load_cash-snoc :
      ⦃f : Float F⦄ (cash : F) (ts : List (SimulationTrade F)) (t : SimulationTrade F)
      → load_cash cash (ts ++ (t ∷ [])) ≡ replay_trade (load_cash cash ts) t
  unfolding load_cash
  load_cash-snoc cash [] t = refl
  load_cash-snoc cash (u ∷ ts) t = load_cash-snoc (replay_trade cash u) ts t

  -- The portfolio in memory, once it is loaded, and the two tables are one state: the rows are its
  -- positions, each symbol once and with shares in it, and replaying the trades gives its cash.
  pub record InSync ⦃f : Float F⦄ (w : World F) (p : SimulationPortfolio F) : Type 0 where
    pub held : (w.memory ≡ none) ⊎ (w.memory ≡ some p)
    pub rows : w.database.simulation_positions ≡ rows_of p.positions
    pub once : NodupKeys p.positions
    pub positive : All IsHeld p.positions
    pub cash : load_cash (of_int w.settings.initial_seed_krw) w.database.simulation_trades ≡ p.cash

  -- If a Numeric column keeps a float, what load reads from the tables is the portfolio that they
  -- are in step with.
  pub load-InSync :
      ⦃f : Float F⦄
      → KeepsNumeric
      → {w : World F} {p : SimulationPortfolio F} → InSync w p
      → load w ≡ ok p
  unfolding load
  load-InSync k {w} {p} s =
      ground (arith, load_positions-rows_of k [] p.positions s.once, ap (load_positions []) s.rows)
