-- ===== src/Backtest/Bounded.antt =====
-- The course of a replay of core/strategy/backtest.py.
use mathlib.Core.Path.{subst}
use toss_invest_ai.Prelude.{
  ℕ, zero, suc, ◌+◌, ◌-◌, ◌*◌, ◌≤◌, Option, none, some, List, [], ◌∷◌, ◌≡◌, refl, inl, inr, ◌∙◌,
  arith,
}
use toss_invest_ai.Prelude.Int.{pos, ◌≤ℤ◌}
use toss_invest_ai.Prelude.Lists.{length, All, length-append}
use toss_invest_ai.Float.{Float}
use toss_invest_ai.Models.{
  Market, StateSnapshot, Decision, Result, ok, Result-cases, >>=_ok, ok_inj,
}
use toss_invest_ai.MarketData.Indicators.{calculate_volume_ratio}
use toss_invest_ai.MarketData.Collector.{Source}
use toss_invest_ai.Backtest.Account.{Account, ClosedTrade, follow}
use toss_invest_ai.Backtest.Replay.{
  nth, step_of, signal_on, Lane, Statistics, lane_on, lanes_on, values_on, replay, Course, listed,
}

few_trades_lem :
    (days k k' a b : ℕ) {c : ℕ} → k' ≡ k → a ≤ k → b ≤ days * k' → c ≡ a + b → c ≤ suc days * k
few_trades_lem days k k' a b same few few' sum =
    omega (arith, few, subst (λ j. b ≤ days * j) same few', sum)

module _ {F : Type 0} ⦃f : Float F⦄ where
  abbrev pub OwesNothing : Lane F → Type 0
  OwesNothing l = pos 0 ≤ℤ l.account.qty

  follow-OwesNothing :
      (price : F) (signal : Option (Decision F)) (a : Account F)
      (r : Account F × Option (ClosedTrade F))
      → pos 0 ≤ℤ a.qty
      → follow price signal a ≡ ok r
      → pos 0 ≤ℤ r.0.qty
  unfolding follow
  follow-OwesNothing price none a r h e = ground (arith, h, e)
  follow-OwesNothing price (some d) a r h e = ground (arith, h, e)

module _ {F : Type 0} ⦃f : Float F⦄ (source : Source F) (stats : Statistics F)
    (generate_signal : StateSnapshot F → Result (Option (Decision F))) (market : Market) where
  step_of-OwesNothing :
      (price : F) (l : Lane F) (signal : Option (Decision F)) (r : Lane F × Option (ClosedTrade F))
      → OwesNothing l
      → step_of source stats generate_signal market price l signal ≡ ok r
      → OwesNothing r.0
  step_of-OwesNothing price l signal (l', t) h e =
      elim (Result-cases (follow price signal l.account)) [
        | inl (q, followed) ↦
            ground (arith, e, followed, follow-OwesNothing price signal l.account q h)
        | inr (x, failed) ↦ ground (arith, e, failed)
      ]

  lane_on-OwesNothing :
      (n : ℕ) (l : Lane F) (r : Lane F × Option (ClosedTrade F))
      → OwesNothing l
      → lane_on source stats generate_signal market n l ≡ ok r
      → OwesNothing r.0
  unfolding lane_on
  lane_on-OwesNothing n l r h e =
      let (price, _, e1) = >>=_ok (nth l.prices n) _ r e in
      let (today, _, e2) = >>=_ok (nth l.volumes n) _ r e1 in
      let (before, _, e3) = >>=_ok (nth l.volumes (n - 1)) _ r e2 in
      let (ratio, _, e4) = >>=_ok (calculate_volume_ratio today before) _ r e3 in
      let (signal, _, e5) =
        >>=_ok (signal_on source stats generate_signal market n l price ratio)
          (step_of source stats generate_signal market price l) r e4 in
      step_of-OwesNothing price l signal r h e5

  listed-short : (t : Option (ClosedTrade F)) → length (listed t) ≤ 1
  listed-short none = omega arith
  listed-short (some t) = omega arith

  -- After a day: as many symbols, no debt of shares, and a closed trade for each symbol at most.
  abbrev DayBounds : List (Lane F) → List (Lane F) × List (ClosedTrade F) → Type 0
  DayBounds ls r = All OwesNothing r.0 × (length r.0 ≡ length ls) × (length r.1 ≤ length ls)

  lanes_on-DayBounds :
      (n : ℕ) (ls : List (Lane F)) (r : List (Lane F) × List (ClosedTrade F))
      → All OwesNothing ls
      → lanes_on source stats generate_signal market n ls ≡ ok r
      → DayBounds ls r
  unfolding lanes_on
  lanes_on-DayBounds n [] r h e = subst (DayBounds []) (ok_inj e) (tt, refl, omega arith)
  lanes_on-DayBounds n (l ∷ ls) r (h, hs) e =
      let (q, stepped, e1) = >>=_ok (lane_on source stats generate_signal market n l) _ r e in
      let (q', rest, e2) = >>=_ok (lanes_on source stats generate_signal market n ls) _ r e1 in
      let (owes, same, few) = lanes_on-DayBounds n ls q' hs rest in
      subst (DayBounds (l ∷ ls)) (ok_inj e2) (
        (lane_on-OwesNothing n l q h stepped, owes),
        omega (arith, same),
        omega (arith, few, listed-short q.1, length-append (listed q.1) q'.1),
      )

  -- After so many days: a value for each of them, and no account that owes shares.
  pub record IsBounded (days : ℕ) (ls : List (Lane F))
      (c : Course source stats generate_signal market) : Type 0 where
    pub owes_nothing : All OwesNothing c.lanes
    pub same_symbols : length c.lanes ≡ length ls
    pub each_day : length c.equity_curve ≡ days
    pub few_trades : length c.trades ≤ days * length ls

  -- If no account owes shares and a replay of so many days ends without an error, then no account
  -- owes shares at the end, there are as many accounts as before, the equity curve has a value for
  -- each day, and at most one trade was closed for each symbol and day.
  pub replay-IsBounded :
      (days n : ℕ) (ls : List (Lane F)) (c : Course source stats generate_signal market)
      → All OwesNothing ls
      → replay source stats generate_signal market days n ls ≡ ok c
      → IsBounded days ls c
  unfolding replay
  replay-IsBounded zero n ls c h e =
      subst (IsBounded 0 ls) (ok_inj e) (record {
        owes_nothing = h;
        same_symbols = refl;
        each_day = refl;
        few_trades = omega arith;
      })
  replay-IsBounded (suc days) n ls c h e =
      let (q, stepped, e1) = >>=_ok (lanes_on source stats generate_signal market n ls) _ c e in
      let (values, _, e2) = >>=_ok (values_on source stats generate_signal market n q.0) _ c e1 in
      let (rest, later, e3) =
        >>=_ok (replay source stats generate_signal market days (suc n) q.0) _ c e2 in
      let (owes, same, few) = lanes_on-DayBounds n ls q h stepped in
      let b = replay-IsBounded days (suc n) q.0 rest owes later in
      subst (IsBounded (suc days) ls) (ok_inj e3) (record {
        owes_nothing = b.owes_nothing;
        same_symbols = b.same_symbols ∙ same;
        each_day = omega (arith, b.each_day);
        few_trades =
            few_trades_lem days (length ls) (length q.0) (length q.1) (length rest.trades) same few
              b.few_trades (length-append q.1 rest.trades);
      })
