-- ===== src/Tests/Replies.antt =====
-- Tests of the replies of the AI services.
use toss_invest_ai.Prelude.{string_equality, false, none, some, ◌≡◌, refl}
use toss_invest_ai.Prelude.Int.{pos, ◌+ℤ◌, ◌-ℤ◌, ◌*ℤ◌, quotient}
use toss_invest_ai.Float.Fixed.{Fixed, fixed, fixed_float}
use toss_invest_ai.Models.{ok, err, value_error, Decision, buy, limit_order, low_risk, free_text}
use toss_invest_ai.Gateway.Texts.{is_symbol, json_block, up_to_brace, is_prompt_version}
use toss_invest_ai.Gateway.Json.{
  Json, json_object, field, no_fields, json_string, json_int, json_float, Python,
}
use toss_invest_ai.Gateway.Parse.{parse_decision_json}
use toss_invest_ai.Gateway.Accepted.{IsSound, parse_decision_json-IsSound}
use toss_invest_ai.Gateway.Found.{parse_decision_json-surrounded}
use toss_invest_ai.Samples.{won}

abbrev pub with_quantity : Json Fixed → Json Fixed
with_quantity q = json_object (
    field "action" (json_string "BUY") (
      field "symbol" (json_string "BRK.B") (
        field "order_type" (json_string "LIMIT") (
          field "risk_level" (json_string "LOW") (
            field "quantity" q (
              field "confidence" (json_float (fixed (pos 7_500))) (
                field "price" (json_int (pos 450))
                  (field "reason" (json_string "gap") no_fields))))))))

abbrev pub python : Json Fixed → Python Fixed
python v = record {
  loads = λ t. some v;
  int_of_text = λ t. none;
  float_of_text = λ t. none;
  text_of = λ t. "";
}

abbrev accepted : Decision Fixed
accepted = record {
  decision_id = "d3";
  action = buy;
  symbol = "BRK.B";
  quantity = pos 2;
  order_type = limit_order;
  price = some (won 450);
  confidence = fixed (pos 7_500);
  reason = free_text "gap";
  risk_level = low_risk;
}

accepted_found :
    parse_decision_json (python (with_quantity (json_int (pos 2)))) "d3" "Sure: {...}" ≡ ok accepted
unfolding parse_decision_json json_block up_to_brace is_symbol fixed_float quotient ◌+ℤ◌ ◌-ℤ◌ ◌*ℤ◌
accepted_found = refl

-- No share is nothing that can be bought.
none_bought :
    parse_decision_json (python (with_quantity (json_int (pos 0)))) "d3" "{}" ≡ err value_error
unfolding parse_decision_json json_block up_to_brace is_symbol fixed_float quotient ◌+ℤ◌ ◌-ℤ◌ ◌*ℤ◌
none_bought = refl

path_refused : is_prompt_version "../secret" ≡ false
unfolding is_prompt_version
path_refused = refl

block_found : json_block "a }{ {} } b" ≡ some "{ {} }"
unfolding json_block up_to_brace
block_found = refl

parse_decision_json-IsSound_example : IsSound accepted
parse_decision_json-IsSound_example =
    parse_decision_json-IsSound (python (with_quantity (json_int (pos 2)))) "d3" "Sure: {...}"
      accepted accepted_found

parse_decision_json-surrounded_example :
    parse_decision_json (python (with_quantity (json_int (pos 2)))) "d3" "Sure: {...}."
    ≡ parse_decision_json (python (with_quantity (json_int (pos 2)))) "d3" "{...}"
parse_decision_json-surrounded_example =
    parse_decision_json-surrounded (python (with_quantity (json_int (pos 2)))) "d3" "Sure: " "..."
      "." refl refl
