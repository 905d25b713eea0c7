-- ===== src/Backtest/Paper.antt =====
-- core/strategy/paper_trading.py: the signals of a strategy, recorded without an order.
use toss_invest_ai.Prelude.{String, Option, none, some, [], ◌∷◌, ◌++◌}
use toss_invest_ai.Models.{StateSnapshot, Decision, Result}
use toss_invest_ai.World.{World, Action, PaperTrade, lift, pure, with_database, ◌>>=◌, ◌>>◌}

-- `BaseStrategy`
pub record Strategy (F : Type 0) : Type 0 where
  pub version : String
  pub generate_signal : StateSnapshot F → Result (Option (Decision F))

module _ {F : Type 0} (strategy : Strategy F) where
  abbrev pub paper_row : Decision F → World F → PaperTrade
  paper_row d w = record {
    symbol = d.symbol;
    strategy_version = strategy.version;
    pnl_krw = none;
    created_at = w.now;
  }

  abbrev pub recorded : Option (Decision F) → Action F (Option (Decision F))
  recorded none w = pure none w
  recorded (some d) w =
      (with_database (λ db. record db { paper_trades = db.paper_trades ++ (paper_row d w ∷ []) })
          >> pure (some d))
        w

  unfoldable pub step : StateSnapshot F → Action F (Option (Decision F))
  step state = lift (strategy.generate_signal state) >>= recorded
