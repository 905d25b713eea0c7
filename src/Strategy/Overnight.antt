-- ===== src/Strategy/Overnight.antt =====
-- core/strategy/us/overnight.py
use toss_invest_ai.Prelude.{
  String, string_equality, not, ◌&&◌, Option, none, some, [], if◌then◌else◌,
}
use toss_invest_ai.Prelude.Int.{ℤ, pos, leb_ℤ}
use toss_invest_ai.Prelude.Dict.{lookup}
use toss_invest_ai.Float.{Float, of_int, decimal, less, at_most, equal}
use toss_invest_ai.Models.{
  sell, gap_up_profit, gap_up_reversal, gap_down_loss, Rationale, ok, Quantity, int_of_quantity,
  ◌>>=◌,
}
use toss_invest_ai.Strategy.State.{by_symbol, Signal, first_signal, no_signal, make_decision}
use toss_invest_ai.Models.{PriceData, StateHolding, StateSnapshot}

module _ {F : Type 0} ⦃f : Float F⦄ (id : String) where
  abbrev sale : String → ℤ → Rationale F → Signal F
  sale symbol quantity reason = ok (some (make_decision id symbol sell quantity reason))

  -- `day_open and price and price < day_open`, with the opening price where it holds
  abbrev fallen_below : Option F → Option F → Option F
  fallen_below (some o) (some p) =
      if not (equal o (of_int (pos 0))) && not (equal p (of_int (pos 0))) && less p o
      then some o
      else none
  fallen_below _ _ = none

  abbrev after_reversal : String → ℤ → F → Signal F
  after_reversal symbol quantity gap =
      if at_most gap (f.negate (decimal 50 1))
      then sale symbol quantity (gap_down_loss gap)
      else no_signal

  abbrev reversed : String → ℤ → F → Option F → Signal F
  reversed symbol quantity gap (some o) =
      if less (of_int (pos 0)) gap && less gap (decimal 50 1)
      then sale symbol quantity (gap_up_reversal gap o)
      else after_reversal symbol quantity gap
  reversed symbol quantity gap none = after_reversal symbol quantity gap

  abbrev gap_signal : String → PriceData F → ℤ → F → Signal F
  gap_signal symbol quote quantity gap =
      if leb_ℤ quantity (pos 0)
      then no_signal
      else (if at_most (decimal 50 1) gap
          then sale symbol quantity (gap_up_profit gap)
          else reversed symbol quantity gap (fallen_below quote.day_open quote.price))

  abbrev with_gap : String → PriceData F → Quantity F → Option F → Signal F
  with_gap symbol quote quantity none = no_signal
  with_gap symbol quote held (some gap) =
      int_of_quantity held >>= λ quantity. gap_signal symbol quote quantity gap

  abbrev pub overnight_of : String → StateHolding F → Option (PriceData F) → Signal F
  overnight_of symbol h none = no_signal
  overnight_of symbol h (some quote) = with_gap symbol quote h.quantity quote.gap_pct

  abbrev pub overnight_at : StateSnapshot F → String × StateHolding F → Signal F
  overnight_at state (symbol, h) = overnight_of symbol h (lookup symbol state.prices)

  unfoldable pub overnight_signal : StateSnapshot F → Signal F
  overnight_signal state = first_signal (overnight_at state) (by_symbol [] state.holdings)
