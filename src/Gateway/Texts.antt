-- ===== src/Gateway/Texts.antt =====
-- The regular expressions of core/gateway/base.py, on the characters of a text.
use Prim.Native.String.{[], ◌∷◌}
use Prim.Native.Char.{Char, code}
use toss_invest_ai.Prelude.{
  ℕ, suc, String, string_equality, Bool, true, ◌&&◌, ◌||◌, Option, none, some, leb, nat_eq,
  if◌then◌else◌,
}

abbrev pub between : ℕ → ℕ → Char → Bool
between first last c = leb first (code c) && leb (code c) last

-- `[A-Za-z0-9]`
abbrev pub is_word : Char → Bool
is_word c = between 65 90 c || between 97 122 c || between 48 57 c

-- `[A-Za-z0-9.\-]`
abbrev pub is_symbol_char : Char → Bool
is_symbol_char c = is_word c || nat_eq (code c) 46 || nat_eq (code c) 45

-- `[A-Za-z0-9_\-]`
abbrev pub is_version_char : Char → Bool
is_version_char c = is_word c || nat_eq (code c) 95 || nat_eq (code c) 45

abbrev pub all_chars : (Char → Bool) → String → Bool
all_chars p [] = true
all_chars p (c ∷ s) = p c && all_chars p s

abbrev pub count_chars : String → ℕ
count_chars [] = 0
count_chars (c ∷ s) = suc (count_chars s)

-- `_SYMBOL_PATTERN.fullmatch`
unfoldable pub is_symbol : String → Bool
is_symbol s = all_chars is_symbol_char s && leb 1 (count_chars s) && leb (count_chars s) 12

-- `_PROMPT_VERSION_PATTERN.fullmatch`
unfoldable pub is_prompt_version : String → Bool
is_prompt_version s = all_chars is_version_char s && leb 1 (count_chars s)

-- What `.*}` matches, the longest first: the text up to the last closing brace.
unfoldable pub up_to_brace : String → Option String
up_to_brace [] = none
up_to_brace (c ∷ s) = elim (up_to_brace s) [
  | some t ↦ some (c ∷ t)
  | none ↦ if nat_eq (code c) 125 then some (c ∷ []) else none
]

abbrev from_brace : Char → Option String → Option String
from_brace c none = none
from_brace c (some t) = some (c ∷ t)

-- `_JSON_BLOCK.search`: from the first opening brace to the last closing one.
unfoldable pub json_block : String → Option String
json_block [] = none
json_block (c ∷ s) = if nat_eq (code c) 123 then from_brace c (up_to_brace s) else json_block s
