-- ===== src/Fund/Status.antt =====
-- `get_portfolio_status` of core/fund/manager.py: the figures that are shown to the user and to the
-- AI models.
use toss_invest_ai.Prelude.{
  Option, none, some, List, [], ◌∷◌, ◌++◌, ◌≡◌, arith, inl, inr, if◌then◌else◌,
}
use toss_invest_ai.Prelude.Int.{ℤ, pos}
use toss_invest_ai.Prelude.Lists.{All, keep}
use toss_invest_ai.Float.{Float, ◌⊕◌, ◌⊖◌, ◌⊗◌, of_int, divide, equal}
use toss_invest_ai.Models.{
  Market, Mode, Result, ok, or_error, zero_division_error, Result-cases, truncated, shares,
  int_of_quantity,
}
use toss_invest_ai.World.{HoldingStatus, PortfolioStatus, World, Exchange, Holding, Query}
use toss_invest_ai.World.Queries.{◌>>=◌, return, given}
use toss_invest_ai.Simulation.{same_market}
use toss_invest_ai.Store.{get_today_realized_pnl_krw}
use toss_invest_ai.Fund.Holdings.{
  load_holdings_and_cash, value_of, add_holdings, get_holdings_value_krw, get_total_value_krw,
}

module _ {F : Type 0} ⦃f : Float F⦄ where
  -- The exchange gives the quantity as a number of whole shares.
  abbrev pub IsWhole : Holding F → Type 0
  IsWhole h = (n : ℤ) × (h.quantity ≡ shares n)

  -- `h.get("avgPrice", current_price)`
  abbrev average_or : F → Option F → F
  average_or current none = current
  average_or current (some a) = a

  -- `(current_price - avg_price) / avg_price if avg_price else 0.0`
  abbrev profit_share : F → F → Result F
  profit_share current avg =
      if equal avg (of_int (pos 0))
      then ok (of_int (pos 0))
      else or_error zero_division_error (divide (current ⊖ avg) avg)

  abbrev status_entry : Holding F → ℤ → F → F → HoldingStatus F
  status_entry h quantity current pct = record {
    symbol = h.symbol;
    market = h.market;
    quantity = quantity;
    avg_price = average_or current h.avg_price;
    current_price = current;
    pnl_pct = pct;
  }

  abbrev whole : F → Result ℤ
  whole v = truncated v

  abbrev share_of_seed : ℤ → ℤ → Result F
  share_of_seed n seed = or_error zero_division_error (divide (of_int n) (of_int seed))

  abbrev in_market : Option Market → List (HoldingStatus F) → List (HoldingStatus F)
  in_market none hs = hs
  in_market (some m) hs = keep (λ (h : HoldingStatus F). same_market h.market m) hs

module _ {F : Type 0} ⦃f : Float F⦄ (x : Exchange F) where
  -- The entries and the value of the holdings so far, and the holdings to come.
  unfoldable pub status_holdings :
      F → List (HoldingStatus F) → F → List (Holding F) → Query F (List (HoldingStatus F) × F)
  status_holdings rate done total [] w = ok (done, total)
  status_holdings rate done total (h ∷ hs) w =
      (do
        current ← x.price h.symbol
        quantity ← given (int_of_quantity h.quantity)
        pct ← given (profit_share current (average_or current h.avg_price))
        status_holdings rate (done ++ (status_entry h quantity current pct ∷ []))
            (total ⊕ value_of x h.market rate (of_int quantity ⊗ current)) hs)
        w

  abbrev status_of :
      Mode → Option Market → F → F → List (HoldingStatus F) → Query F (PortfolioStatus F)
  status_of mode market total cash entries w =
      let seed = w.settings.initial_seed_krw in
      let today = get_today_realized_pnl_krw mode w in
      (do
        cumulative ← given (whole (total ⊖ of_int seed))
        total_krw ← given (whole total)
        today_pct ← given (share_of_seed today seed)
        cumulative_pct ← given (share_of_seed cumulative seed)
        buffer ← given (whole (total ⊗ w.settings.cash_buffer_ratio))
        cash_krw ← given (whole cash)
        return (record {
          total_value_krw = total_krw;
          today_pnl_krw = today;
          today_pnl_pct = today_pct;
          cumulative_pnl_krw = cumulative;
          cumulative_pnl_pct = cumulative_pct;
          cash_buffer_krw = buffer;
          cash_krw = cash_krw;
          holdings = in_market market entries;
        }))
        w

  unfoldable pub get_portfolio_status : Mode → Option Market → Query F (PortfolioStatus F)
  get_portfolio_status mode market = do
    rate ← x.exchange_rate
    (holdings, cash) ← load_holdings_and_cash x mode
    (entries, value) ← status_holdings rate [] (of_int (pos 0)) holdings
    status_of mode market (value ⊕ cash) cash entries

  -- The loop adds up the same values as that of the fund manager.
  status_holdings-value :
      (rate : F) (done : List (HoldingStatus F)) (total : F) (hs : List (Holding F)) (w : World F)
      {entries : List (HoldingStatus F)} {v : F}
      → All IsWhole hs
      → status_holdings rate done total hs w ≡ ok (entries, v)
      → add_holdings x rate total hs w ≡ ok v
  unfolding status_holdings add_holdings
  status_holdings-value rate done total [] w all_whole h = ground arith
  status_holdings-value rate done total (k ∷ hs) w {entries} {v} ((n, counted), all_whole) h =
      elim (Result-cases (x.price k.symbol w)) [
        | inr (e, failed) ↦ ground arith
        | inl (current, priced) ↦
            elim (Result-cases (profit_share current (average_or current k.avg_price))) [
              | inr (e, failed) ↦ ground arith
              | inl (pct, shared) ↦ ground (
                arith,
                counted,
                status_holdings-value rate (done ++ (status_entry k n current pct ∷ []))
                    (total ⊕ value_of x k.market rate (of_int n ⊗ current)) hs w {entries = entries}
                    {v = v} all_whole,
              )
            ]
      ]

  status_of-total :
      (mode : Mode) (market : Option Market) (total cash : F) (entries : List (HoldingStatus F))
      (w : World F) {s : PortfolioStatus F}
      → status_of mode market total cash entries w ≡ ok s
      → f.truncate total ≡ some s.total_value_krw
  status_of-total mode market total cash entries w h = ground arith

  -- If every holding has a whole number of shares, the total value that get_portfolio_status
  -- reports, for all markets or one, is the whole part of the one that get_total_value_krw gives in
  -- the same state.
  pub get_portfolio_status-total :
      (mode : Mode) (market : Option Market) (w : World F) {s : PortfolioStatus F}
      → ((hs : List (Holding F)) (cash : F)
          → load_holdings_and_cash x mode w ≡ ok (hs, cash)
          → All IsWhole hs)
      → get_portfolio_status mode market w ≡ ok s
      → (v : F) × (get_total_value_krw x mode w ≡ ok v) × (f.truncate v ≡ some s.total_value_krw)
  unfolding get_portfolio_status get_total_value_krw get_holdings_value_krw
  get_portfolio_status-total mode market w {s} all_whole h =
      elim (Result-cases (x.exchange_rate w)) [
        | inr (e, failed) ↦ ground arith
        | inl (rate, h1) ↦ elim (Result-cases (load_holdings_and_cash x mode w)) [
          | inr (e, failed) ↦ ground arith
          | inl (loaded, h2) ↦
              elim (Result-cases (status_holdings rate [] (of_int (pos 0)) loaded.0 w)) [
                | inr (e, failed) ↦ ground arith
                | inl (summed, h3) ↦
                    let value =
                      status_holdings-value rate [] (of_int (pos 0)) loaded.0 w
                        (all_whole loaded.0 loaded.1 h2) h3 in
                    let whole_total =
                      status_of-total mode market (summed.1 ⊕ loaded.1) loaded.1 summed.0 w
                        {s = s} in
                    (summed.1 ⊕ loaded.1, ground (arith, value), ground (arith, whole_total))
              ]
        ]
      ]
