-- ===== src/Gateway/Json.antt =====
-- The values of Python's `json`, and the conversions that core/gateway/base.py applies to them.
use toss_invest_ai.Prelude.{
  String, string_equality, Bool, true, false, not, Option, none, some, ◌==◌, if◌then◌else◌,
}
use toss_invest_ai.Prelude.Int.{ℤ, pos, eq_ℤ}
use toss_invest_ai.Float.{Float, of_int, equal}
use toss_invest_ai.Models.{Result, ok, err, or_error, key_error, value_error, type_error, truncated}

mutual
  pub data Json (F : Type 0) : Type 0 where
    json_null : Json F
    json_bool : Bool → Json F
    json_int : ℤ → Json F
    json_float : F → Json F
    json_string : String → Json F
    json_array : Items F → Json F
    json_object : Fields F → Json F

  pub data Items (F : Type 0) : Type 0 where
    no_items : Items F
    item : Json F → Items F → Items F

  pub data Fields (F : Type 0) : Type 0 where
    no_fields : Fields F
    field : String → Json F → Fields F → Fields F

-- What Python does with a text and a value that is not modelled: `json.loads`, `int` and `float` of
-- a text, and `str` of a value that is not a text.
pub record Python (F : Type 0) : Type 0 where
  pub loads : String → Option (Json F)
  pub int_of_text : String → Option ℤ
  pub float_of_text : String → Option F
  pub text_of : Json F → String

module _ {F : Type 0} where
  -- `d.get(key)`
  abbrev pub get : String → Fields F → Option (Json F)
  get key no_fields = none
  get key (field k v fs) = if k == key then some v else get key fs

  -- `data[key]`
  abbrev pub subscript : Json F → String → Result (Json F)
  subscript (json_object fs) key = or_error key_error (get key fs)
  subscript _ key = err type_error

  -- A value that can be looked for in a set, as a text or not.
  abbrev pub hashed : Json F → Result (Option String)
  hashed (json_array _) = err type_error
  hashed (json_object _) = err type_error
  hashed (json_string s) = ok (some s)
  hashed _ = ok none

  module _ ⦃f : Float F⦄ (py : Python F) where
    -- `int(v)`
    abbrev pub int_of : Json F → Result ℤ
    int_of (json_int n) = ok n
    int_of (json_bool b) = ok (if b then pos 1 else pos 0)
    int_of (json_float x) = truncated x
    int_of (json_string s) = or_error value_error (py.int_of_text s)
    int_of _ = err type_error

    -- `float(v)`
    abbrev pub float_of : Json F → Result F
    float_of (json_int n) = ok (of_int n)
    float_of (json_bool b) = ok (of_int (if b then pos 1 else pos 0))
    float_of (json_float x) = ok x
    float_of (json_string s) = or_error value_error (py.float_of_text s)
    float_of _ = err type_error

    -- Whether `if v` holds.
    abbrev pub is_true : Json F → Bool
    is_true json_null = false
    is_true (json_bool b) = b
    is_true (json_int n) = not (eq_ℤ n (pos 0))
    is_true (json_float x) = not (equal x (of_int (pos 0)))
    is_true (json_string s) = not (s == "")
    is_true (json_array no_items) = false
    is_true (json_array (item _ _)) = true
    is_true (json_object no_fields) = false
    is_true (json_object (field _ _ _)) = true

    -- `str(v)`
    abbrev pub str_of : Json F → String
    str_of (json_string s) = s
    str_of v = py.text_of v
