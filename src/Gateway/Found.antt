-- ===== src/Gateway/Found.antt =====
-- Where `parse_decision_json` of core/gateway/base.py looks for the JSON of a reply.
use Prim.Native.String.{[], ◌∷◌, ◌++◌}
use Prim.Native.Char.{Char, char, code}
use text.Mathlib.TextLemmas.{nil-append, cons-append}
use toss_invest_ai.Prelude.{
  ℕ, String, Bool, true, not, none, some, ◌≡◌, refl, ap, sym, ◌∙◌, arith, nat_eq,
}
use toss_invest_ai.Float.{Float}
use toss_invest_ai.Gateway.Texts.{all_chars, up_to_brace, json_block}
use toss_invest_ai.Gateway.Json.{Python}
use toss_invest_ai.Gateway.Parse.{parse_decision_json, decision_of}
use toss_invest_ai.Models.{or_error, value_error, ◌>>=◌}

abbrev pub is_not : ℕ → Char → Bool
is_not n c = not (nat_eq (code c) n)

abbrev pub opening : Char
opening = char 123 tt

abbrev pub closing : Char
closing = char 125 tt

abbrev pub braced : String → String
braced body = opening ∷ (body ++ (closing ∷ []))

up_to_brace-none : (s : String) → all_chars (is_not 125) s ≡ true → up_to_brace s ≡ none
unfolding up_to_brace
up_to_brace-none [] h = refl
up_to_brace-none (c ∷ s) h = ground (arith, h, up_to_brace-none s)

up_to_brace-cons :
    (c : Char) (s t : String) → up_to_brace s ≡ some t → up_to_brace (c ∷ s) ≡ some (c ∷ t)
unfolding up_to_brace
up_to_brace-cons c s t h = ground (arith, h)

up_to_brace-closing :
    (s : String) → up_to_brace s ≡ none → up_to_brace (closing ∷ s) ≡ some (closing ∷ [])
unfolding up_to_brace
up_to_brace-closing s h = ground (arith, h)

up_to_brace-found :
    (body after : String)
    → all_chars (is_not 125) after ≡ true
    → up_to_brace (body ++ (closing ∷ after)) ≡ some (body ++ (closing ∷ []))
unfolding up_to_brace
up_to_brace-found [] after h =
    rw (nil-append (closing ∷ after), nil-append (closing ∷ []))
      (up_to_brace-closing after (up_to_brace-none after h))
up_to_brace-found (c ∷ body) after h =
    rw (cons-append c body (closing ∷ after), cons-append c body (closing ∷ []))
      (up_to_brace-cons c (body ++ (closing ∷ after)) (body ++ (closing ∷ []))
        (up_to_brace-found body after h))

json_block-opening :
    (s t : String) → up_to_brace s ≡ some t → json_block (opening ∷ s) ≡ some (opening ∷ t)
unfolding json_block
json_block-opening s t h = ground (arith, h)

json_block-skips : (c : Char) (s : String) → is_not 123 c ≡ true → json_block (c ∷ s) ≡ json_block s
unfolding json_block
json_block-skips c s h = ground (arith, h)

json_block-found :
    (before body after : String)
    → all_chars (is_not 123) before ≡ true
    → all_chars (is_not 125) after ≡ true
    → json_block (before ++ (opening ∷ (body ++ (closing ∷ after)))) ≡ some (braced body)
json_block-found [] body after h h' = rw (nil-append (opening ∷ (body ++ (closing ∷ after)))) (
    json_block-opening (body ++ (closing ∷ after)) (body ++ (closing ∷ []))
      (up_to_brace-found body after h'))
json_block-found (c ∷ before) body after h h' =
    rw (cons-append c before (opening ∷ (body ++ (closing ∷ after)))) (
      json_block-skips c (before ++ (opening ∷ (body ++ (closing ∷ after)))) (ground (arith, h))
      ∙ json_block-found before body after (ground (arith, h)) h')

module _ {F : Type 0} ⦃f : Float F⦄ (py : Python F) where
  -- A text before the JSON object without an opening brace, and a text after it without a closing
  -- one, do not change what is read from a reply.
  pub parse_decision_json-surrounded :
      (id before body after : String)
      → all_chars (is_not 123) before ≡ true
      → all_chars (is_not 125) after ≡ true
      → parse_decision_json py id (before ++ (opening ∷ (body ++ (closing ∷ after))))
        ≡ parse_decision_json py id (braced body)
  unfolding parse_decision_json
  parse_decision_json-surrounded id before body after h h' =
      ap
        (λ o. or_error value_error o >>= λ block.
          or_error value_error (py.loads block) >>= decision_of py id)
        (json_block-found before body after h h'
          ∙ sym (
              json_block-opening (body ++ (closing ∷ [])) (body ++ (closing ∷ []))
                (up_to_brace-found body [] refl)))
