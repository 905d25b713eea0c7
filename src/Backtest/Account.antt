-- ===== src/Backtest/Account.antt =====
-- What a signal does to the account of one symbol in a backtest.
use toss_invest_ai.Prelude.{Bool, true, false, ◌&&◌, Option, none, some, if◌then◌else◌}
use toss_invest_ai.Prelude.Int.{ℤ, pos, ltb_ℤ, eq_ℤ}
use toss_invest_ai.Float.{Float, ◌⊕◌, ◌⊖◌, ◌⊗◌, of_int, divide, less}
use toss_invest_ai.Models.{
  TradeAction, buy, sell, Decision, Result, ok, or_error, ◌>>=◌, zero_division_error, truncated,
}

pub record Account (F : Type 0) : Type 0 where
  pub cash : F
  pub qty : ℤ
  pub avg_price : F

-- `_ClosedTrade`
pub record ClosedTrade (F : Type 0) : Type 0 where
  pub pnl : F
  pub return_pct : F

abbrev pub is_purchase : TradeAction → Bool
is_purchase buy = true
is_purchase _ = false

abbrev pub is_sale : TradeAction → Bool
is_sale sell = true
is_sale _ = false

module _ {F : Type 0} ⦃f : Float F⦄ where
  -- `int(cash // price) if price > 0 else 0`
  abbrev pub affordable : F → F → Result ℤ
  affordable cash price =
      if less (of_int (pos 0)) price
      then (do q ← or_error zero_division_error (f.floor_divide cash price); truncated q)
      else ok (pos 0)

  abbrev pub after_purchase : F → Account F → ℤ → Account F
  after_purchase price a quantity =
      if ltb_ℤ (pos 0) quantity
      then record { cash = a.cash ⊖ of_int quantity ⊗ price; qty = quantity; avg_price = price }
      else a

  abbrev pub closed_trade : F → Account F → Result (ClosedTrade F)
  closed_trade price a = do
    share ← or_error zero_division_error (divide (price ⊖ a.avg_price) a.avg_price)
    ok (record { pnl = of_int a.qty ⊗ price ⊖ of_int a.qty ⊗ a.avg_price; return_pct = share })

  abbrev pub after_sale : F → Account F → Account F
  after_sale price a = record {
    cash = a.cash ⊕ of_int a.qty ⊗ price;
    qty = pos 0;
    avg_price = of_int (pos 0);
  }

  abbrev purchased : F → Account F → Result (Account F × Option (ClosedTrade F))
  purchased price a = do
    quantity ← affordable a.cash price
    ok (after_purchase price a quantity, none)

  abbrev closed : F → Account F → Result (Account F × Option (ClosedTrade F))
  closed price a = do trade ← closed_trade price a; ok (after_sale price a, some trade)

  -- A purchase if nothing is held, a sale of all that is held, or nothing.
  unfoldable pub follow :
      F → Option (Decision F) → Account F → Result (Account F × Option (ClosedTrade F))
  follow price none a = ok (a, none)
  follow price (some d) a =
      if is_purchase d.action && eq_ℤ a.qty (pos 0)
      then purchased price a
      else (if is_sale d.action && ltb_ℤ (pos 0) a.qty then closed price a else ok (a, none))
