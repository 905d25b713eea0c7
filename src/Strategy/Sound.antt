-- ===== src/Strategy/Sound.antt =====
-- What every rule-based signal is: a sale of a whole position or a purchase of a new one.
use toss_invest_ai.Prelude.{String, string_equality, false, some, ◌≡◌}
use toss_invest_ai.Prelude.Int.{pos, ◌<ℤ◌}
use toss_invest_ai.Prelude.Lists.{AnyOf}
use toss_invest_ai.Float.{Float, of_int}
use toss_invest_ai.Models.{Decision, buy, sell, ok, kr, int_of_quantity}
use toss_invest_ai.Strategy.State.{is_held, is_interrupted, rule_quantity}
use toss_invest_ai.Models.{StateSnapshot, PriceData, StateHolding}

module _ {F : Type 0} ⦃f : Float F⦄ (state : StateSnapshot F) (d : Decision F) where
  -- The decision sells all whole shares of a holding.
  pub record SellsHolding : Type 0 where
    pub sells : d.action ≡ sell
    pub whole :
        AnyOf
          (λ (h : StateHolding F).
            (h.symbol ≡ d.symbol) × (int_of_quantity h.quantity ≡ ok d.quantity))
          state.holdings

  -- The quantity comes from the price of the symbol, and trading in it is not interrupted.
  abbrev pub Quoted : String × PriceData F → Type 0
  Quoted (symbol, quote) =
      (symbol ≡ d.symbol)
      × (rule_quantity quote.price ≡ ok d.quantity)
      × (is_interrupted state.market quote ≡ false)

  -- The quantity is the whole part of 50 000 over the price of the symbol, and on the KR market
  -- trading in it is not interrupted.
  pub record Priced (entry : String × PriceData F) : Type 0 where
    pub same_symbol : entry.0 ≡ d.symbol
    pub price : F
    pub affordable : F
    pub known : entry.1.price ≡ some price
    pub divided : f.floor_divide (of_int (pos 50_000)) price ≡ some affordable
    pub cut : f.truncate affordable ≡ some d.quantity
    pub uninterrupted : (state.market ≡ kr) → entry.1.vi_triggered ≡ false

  -- The decision buys a positive quantity of a symbol that is not held.
  pub record BuysNew : Type 0 where
    pub buys : d.action ≡ buy
    pub positive : pos 0 <ℤ d.quantity
    pub unheld : is_held d.symbol state.holdings ≡ false
    pub priced : AnyOf Priced state.prices

module _ {F : Type 0} ⦃f : Float F⦄ (id : String) (state : StateSnapshot F) (d : Decision F) where
  -- What a purchase is, whichever symbol of the prices it was found at.
  abbrev Enters : Type 0
  Enters = (d.action ≡ buy) × (pos 0 <ℤ d.quantity) × (is_held d.symbol state.holdings ≡ false)

  abbrev Matches : StateHolding F → Type 0
  Matches h = (h.symbol ≡ d.symbol) × (int_of_quantity h.quantity ≡ ok d.quantity)

  abbrev MatchesAt : String × StateHolding F → Type 0
  MatchesAt (symbol, h) = (symbol ≡ d.symbol) × (int_of_quantity h.quantity ≡ ok d.quantity)
