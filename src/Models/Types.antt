-- ===== src/Models/Types.antt =====
-- The data types of core/models.py.
use toss_invest_ai.Prelude.{
  ℕ, String, Bool, true, false, Option, none, some, ◌≡◌, refl, ◌⊎◌, inl, inr, if◌then◌else◌,
}
use toss_invest_ai.Prelude.Int.{ℤ}
use toss_invest_ai.Float.{Float, at_most}

pub data Market : Type 0 where
  kr us : Market

pub data Mode : Type 0 where
  live simulation dry_run : Mode

pub record RunMode : Type 0 where
  pub mode : Mode
  pub market : Market

pub data TradeAction : Type 0 where
  buy sell hold : TradeAction

pub data OrderType : Type 0 where
  limit_order market_order amount_order : OrderType

pub data RiskLevel : Type 0 where
  low_risk medium_risk high_risk : RiskLevel

pub record Order (F : Type 0) : Type 0 where
  pub symbol : String
  pub market : Market
  pub action : TradeAction
  pub quantity : ℤ
  pub order_type : OrderType
  pub price : Option F
  pub amount_krw : ℤ
  pub client_order_id : String

-- The `reason` strings of decisions: those of the rule-based strategies, with the values printed,
-- the blocked symbol, and any text of a model or a user.
pub data Rationale (F : Type 0) : Type 0 where
  overbought oversold : F → Rationale F
  volume_breakout : F → F → F → Rationale F
  gap_up_profit : F → Rationale F
  gap_up_reversal : F → F → Rationale F
  gap_down_loss : F → Rationale F
  blocked_symbol : String → Rationale F
  free_text : String → Rationale F

pub record Decision (F : Type 0) : Type 0 where
  pub decision_id : String
  pub action : TradeAction
  pub symbol : String
  pub quantity : ℤ
  pub order_type : OrderType
  pub price : Option F
  pub confidence : F
  pub reason : Rationale F
  pub risk_level : RiskLevel

-- The messages with which an order is refused.
pub data Reason (F : Type 0) : Type 0 where
  not_positive emergency_stop_active kr_stop_active us_stop_active : Reason F
  daily_loss_exceeded : ℤ → Reason F
  position_ratio_exceeded : F → Reason F
  sellable_exceeded : ℤ → ℤ → Reason F
  order_amount_exceeded : ℤ → Reason F
  cash_buffer_short : Reason F
  restricted_symbol : Option String → Reason F
  market_closed regular_session_only duplicate_order_id : Reason F
  high_risk_limit_exceeded : F → Reason F
  hold_no_order unknown_reason : Reason F

pub record GateResult (F : Type 0) : Type 0 where
  pub approved : Bool
  pub reason : Option (Reason F)

abbrev pub approve : {F : Type 0} → GateResult F
approve = record { approved = true; reason = none }

abbrev pub reject : {F : Type 0} → Reason F → GateResult F
reject r = record { approved = false; reason = some r }

-- An order id of the exchange, or the virtual one, with its prefix, day, market and suffix.
pub data OrderId : Type 0 where
  exchange_id : String → OrderId
  virtual_id : Mode → ℕ → Market → String → OrderId

pub record OrderResult (F : Type 0) : Type 0 where
  pub filled : Bool
  pub order_id : Option OrderId
  pub fill_price : Option F
  pub reason : Option (Reason F)

abbrev pub rejected : {F : Type 0} → Reason F → OrderResult F
rejected r = record { filled = false; order_id = none; fill_price = none; reason = some r }

-- What can be raised: Python's own errors, those of the exchange and the AI services, and those of
-- the database driver.
pub data Error : Type 0 where
  value_error key_error zero_division_error overflow_error : Error
  -- the ValueError of `int` and `round` at NaN
  not_a_number_error : Error
  toss_api_error : ℕ → Option String → Error
  client_error : Error
  api_status_error api_timeout_error : Error
  type_error index_error driver_error rate_limit_exceeded not_implemented_error : Error

pub data Result (A : Type 0) : Type 0 where
  ok : A → Result A
  err : Error → Result A

infixl 5 ◌>>=◌ ◌>>◌
abbrev pub ◌>>=◌ : {A B : Type 0} → Result A → (A → Result B) → Result B
ok a >>= f = f a
err e >>= f = err e

abbrev pub ◌>>◌ : {A B : Type 0} → Result A → Result B → Result B
m >> k = m >>= λ _. k

abbrev pub or_error : {A : Type 0} → Error → Option A → Result A
or_error e none = err e
or_error e (some a) = ok a

module _ {F : Type 0} ⦃f : Float F⦄ where
  -- The error where there is no whole number: NaN, which is not even at most itself, is a
  -- ValueError, an infinity is an OverflowError.
  abbrev pub no_whole : F → Error
  no_whole v = if at_most v v then overflow_error else not_a_number_error

  -- `int(v)`
  abbrev pub truncated : F → Result ℤ
  truncated v = or_error (no_whole v) (f.truncate v)

  -- `round(v)`
  abbrev pub rounded : F → Result ℤ
  rounded v = or_error (no_whole v) (f.round v)

-- A quantity as a reply of the exchange has it, an int or a float.
pub data Quantity (F : Type 0) : Type 0 where
  shares : ℤ → Quantity F
  fraction : F → Quantity F

module _ {F : Type 0} ⦃f : Float F⦄ where
  -- The float of a product with a price.
  abbrev pub number_of : Quantity F → F
  number_of (shares n) = f.of_int n
  number_of (fraction v) = v

  -- `int(quantity)`
  abbrev pub int_of_quantity : Quantity F → Result ℤ
  int_of_quantity (shares n) = ok n
  int_of_quantity (fraction v) = truncated v

pub Result-cases :
    {A : Type 0} (r : Result A) → ((a : A) × (r ≡ ok a)) ⊎ ((e : Error) × (r ≡ err e))
Result-cases (ok a) = inl (a, refl)
Result-cases (err e) = inr (e, refl)

-- What ran before a result.
pub >>=_ok :
    {A B : Type 0} (m : Result A) (k : A → Result B) (b : B)
    → (m >>= k) ≡ ok b
    → (a : A) × (m ≡ ok a) × (k a ≡ ok b)
>>=_ok (ok a) k b e = (a, refl, e)
>>=_ok (err x) k b e = let bad : ⊥ = cc e in elim bad [ ]

pub ok_inj : {A : Type 0} {a b : A} → ok a ≡ ok b → a ≡ b
ok_inj e = cc e
