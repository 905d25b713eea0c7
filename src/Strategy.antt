-- ===== src/Strategy.antt =====
-- core/strategy/ and core/trading/decision.py: the rule-based strategies of the two markets, and
-- the decision of one pass, which an AI model makes only where no rule gives a signal.
mod State
mod Reversion
mod Momentum
mod Overnight
mod Decide
mod Search
pub mod Known
pub mod Sound
pub use toss_invest_ai.Models.{StateSnapshot, PriceData, StateHolding}
unfoldable pub use State.{by_symbol, is_held, make_decision, rule_quantity}
unfoldable pub use Reversion.{reversion_signal}
unfoldable pub use Momentum.{kr_momentum_signal, us_momentum_signal}
unfoldable pub use Overnight.{overnight_signal}
pub use Decide.{is_known, falls_back, constrained, ai_decision}
unfoldable pub use Decide.{rule_based_filter, constrain_to_known_symbols, get_decision}
