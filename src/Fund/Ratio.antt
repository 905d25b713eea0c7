-- ===== src/Fund/Ratio.antt =====
-- Shares of the total value: the cash buffer, the operating funds and the weight of a symbol.
use toss_invest_ai.Prelude.{String, if◌then◌else◌}
use toss_invest_ai.Prelude.Int.{pos}
use toss_invest_ai.Float.{Float, ◌⊕◌, ◌⊖◌, ◌⊗◌, of_int, divide, less, at_most}
use toss_invest_ai.Models.{Mode, or_error, zero_division_error}
use toss_invest_ai.World.{Exchange, Query}
use toss_invest_ai.World.Queries.{◌>>=◌, return, given}
use toss_invest_ai.Fund.Holdings.{get_total_value_krw, get_position_value_krw}

-- The answer of `can_allocate`, with its message.
pub data Allocation (F : Type 0) : Type 0 where
  allowed no_operating_funds : Allocation F
  above_cap : F → Allocation F

module _ {F : Type 0} ⦃f : Float F⦄ (x : Exchange F) where
  unfoldable pub get_cash_buffer_krw : Mode → Query F F
  get_cash_buffer_krw mode w =
      (do total ← get_total_value_krw x mode; return (total ⊗ w.settings.cash_buffer_ratio)) w

  unfoldable pub get_operating_funds_krw : Mode → Query F F
  get_operating_funds_krw mode w =
      (do
        total ← get_total_value_krw x mode
        return (total ⊗ (of_int (pos 1) ⊖ w.settings.cash_buffer_ratio)))
        w

  abbrev ratio_to : F → String → Mode → Query F F
  ratio_to funds symbol mode = do
    value ← get_position_value_krw x symbol mode
    given (or_error zero_division_error (divide value funds))

  unfoldable pub get_position_ratio : String → Mode → Query F F
  get_position_ratio symbol mode = do
    funds ← get_operating_funds_krw mode
    if at_most funds (of_int (pos 0)) then return (of_int (pos 0)) else ratio_to funds symbol mode

  abbrev projected : F → F → String → Mode → Query F (Allocation F)
  projected funds amount symbol mode w =
      (do
        current ← get_position_value_krw x symbol mode
        ratio ← given (or_error zero_division_error (divide (current ⊕ amount) funds))
        return (if less w.settings.max_position_ratio ratio then above_cap ratio else allowed))
        w

  unfoldable pub can_allocate : F → String → Mode → Query F (Allocation F)
  can_allocate amount symbol mode = do
    funds ← get_operating_funds_krw mode
    if at_most funds (of_int (pos 0))
        then return no_operating_funds
        else projected funds amount symbol mode
