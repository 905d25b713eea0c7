-- ===== src/Gateway/Accepted.antt =====
-- What `parse_decision_json` of core/gateway/base.py accepts.
use mathlib.Core.Path.{subst}
use toss_invest_ai.Prelude.{
  String, string_equality, Bool, true, false, Option, none, some, ◌≡◌, ◌≢◌, ◌∙◌, arith, inl, inr,
  Bool-cases,
}
use toss_invest_ai.Prelude.Int.{ℤ, pos, ◌<ℤ◌}
use toss_invest_ai.Float.{Float, of_int, at_most, decimal}
use toss_invest_ai.Models.{
  >>=_ok, ok_inj, ok, or_error, ◌>>=◌, value_error, TradeAction, hold, OrderType, amount_order,
  Decision,
}
use toss_invest_ai.Gateway.Texts.{is_symbol, json_block}
use toss_invest_ai.Gateway.Json.{Json, Python, subscript, int_of, float_of, is_true, hashed}
use toss_invest_ai.Gateway.Parse.{
  parse_decision_json, read_one, action_of, order_type_of, risk_level_of, read_symbol,
  read_quantity, read_confidence, price_of, positive_price, optional, unless, decision_of,
}

unless_ok : (bad : Bool) → unless bad ≡ ok tt → bad ≡ false
unless_ok bad e = ground (arith, e)

order_type-known : (s : Option String) (t : OrderType) → order_type_of s ≡ some t → t ≢ amount_order
order_type-known none t e = λ _. cc e
order_type-known (some s) t e = ground (arith, e)

module _ {F : Type 0} ⦃f : Float F⦄ where
  -- The specification of a reply: the values that each field may have.
  pub record IsSound (d : Decision F) : Type 0 where
    pub symbol_valid : is_symbol d.symbol ≡ true
    pub quantity_positive : d.action ≢ hold → pos 0 <ℤ d.quantity
    pub no_amount : d.order_type ≢ amount_order
    pub at_least_zero : at_most (decimal 0 1) d.confidence ≡ true
    pub at_most_one : at_most d.confidence (decimal 10 1) ≡ true
    pub price_positive : (p : F) → d.price ≡ some p → at_most p (of_int (pos 0)) ≡ false

  read_symbol_ok : (v : Json F) (s : String) → read_symbol v ≡ ok s → is_symbol s ≡ true
  read_symbol_ok v s e =
      let (found, _, e') = >>=_ok (subscript v "symbol") _ s e in ground (arith, e')

  read_order_type_ok :
      (v : Json F) (t : OrderType) → read_one order_type_of v "order_type" ≡ ok t → t ≢ amount_order
  read_order_type_ok v t e =
      let (found, _, e1) = >>=_ok (subscript v "order_type") _ t e in
      let (s, _, e2) = >>=_ok (hashed found) _ t e1 in ground (arith, e2, order_type-known s t)

  module _ (py : Python F) where
    read_quantity_ok :
        (a : TradeAction) (v : Json F) (q : ℤ) → read_quantity py a v ≡ ok q → a ≢ hold → pos 0 <ℤ q
    read_quantity_ok a v q e trades =
        let (found, _, e') = >>=_ok (subscript v "quantity") _ q e in
        let (n, _, e'') = >>=_ok (int_of py found) _ q e' in ground (arith, e'', trades)

    read_confidence_ok :
        (v : Json F) (c : F)
        → read_confidence py v ≡ ok c
        → (at_most (decimal 0 1) c ≡ true) × (at_most c (decimal 10 1) ≡ true)
    read_confidence_ok v c e =
        let (found, _, e') = >>=_ok (subscript v "confidence") _ c e in
        let (n, _, e'') = >>=_ok (float_of py found) _ c e' in ground (arith, e'')

    price_read :
        (v : Json F)
        → is_true py v ≡ true
        → (float_of py v >>= positive_price) ≡ price_of py (some v)
    price_read v present = ground (arith, present)

    price_of_ok :
        (o : Option (Json F)) (r : Option F) (p : F)
        → price_of py o ≡ ok r
        → r ≡ some p
        → at_most p (of_int (pos 0)) ≡ false
    price_of_ok none r p e h = cc (e, h)
    price_of_ok (some v) r p e h = elim (Bool-cases (is_true py v)) [
      | inl present ↦
          let (n, _, e') = >>=_ok (float_of py v) positive_price r (price_read v present ∙ e) in
          ground (arith, e', h)
      | inr absent ↦ ground (arith, e, h, absent)
    ]

    decision_of-IsSound :
        (id : String) (v : Json F) (d : Decision F) → decision_of py id v ≡ ok d → IsSound d
    decision_of-IsSound id v d e =
        let (action, _, e1) = >>=_ok (read_one action_of v "action") _ d e in
        let (symbol, is, e2) = >>=_ok (read_symbol v) _ d e1 in
        let (order_type, io, e3) = >>=_ok (read_one order_type_of v "order_type") _ d e2 in
        let (risk_level, _, e4) = >>=_ok (read_one risk_level_of v "risk_level") _ d e3 in
        let (quantity, iq, e5) = >>=_ok (read_quantity py action v) _ d e4 in
        let (confidence, ic, e6) = >>=_ok (read_confidence py v) _ d e5 in
        let (price, ip, e7) = >>=_ok (price_of py (optional v "price")) _ d e6 in
        let (reason, _, e8) = >>=_ok (subscript v "reason") _ d e7 in
        subst IsSound (ok_inj e8) (record {
          symbol_valid = read_symbol_ok v symbol is;
          quantity_positive = read_quantity_ok action v quantity iq;
          no_amount = read_order_type_ok v order_type io;
          at_least_zero = (read_confidence_ok v confidence ic).0;
          at_most_one = (read_confidence_ok v confidence ic).1;
          price_positive = λ p. price_of_ok (optional v "price") price p ip;
        })

    -- A decision that is read from the reply of a model has a symbol of the valid form, a positive
    -- quantity unless it is HOLD, no order by amount, a confidence that is at least 0 and at most
    -- 1, and, if it has a price, one that is not at most 0.
    pub parse_decision_json-IsSound :
        (id text : String) (d : Decision F) → parse_decision_json py id text ≡ ok d → IsSound d
    unfolding parse_decision_json
    parse_decision_json-IsSound id text d e =
        let (block, _, e1) = >>=_ok (or_error value_error (json_block text)) _ d e in
        let (v, _, e2) = >>=_ok (or_error value_error (py.loads block)) _ d e1 in
        decision_of-IsSound id v d e2
