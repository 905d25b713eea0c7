-- ===== src/Gateway/Services.antt =====
-- The calls of core/gateway/claude.py and core/gateway/deepseek.py. What the services reply is a
-- parameter, which may depend on the prompt, the snapshot and the whole state.
use Prim.Native.String.{◌++◌ as joined}
use toss_invest_ai.Prelude.{String, Option, none, some, List, [], ◌∷◌, if◌then◌else◌}
use toss_invest_ai.Prelude.Int.{ℤ, pos}
use toss_invest_ai.Float.{Float}
use toss_invest_ai.Models.{StateSnapshot, Result, ok, err, value_error, index_error, Decision}
use toss_invest_ai.World.{World, Exchange, Action, Query, lift, query, ◌>>=◌}
use toss_invest_ai.Fund.Usage.{Tokens, record_api_usage}
use toss_invest_ai.Gateway.Texts.{is_prompt_version}
use toss_invest_ai.Gateway.Json.{Python}
use toss_invest_ai.Gateway.Parse.{parse_decision_json}

-- `usage` of a reply: the counts of the cache may be missing.
pub record Usage : Type 0 where
  pub input_tokens : ℤ
  pub output_tokens : ℤ
  pub cache_read_input_tokens : Option ℤ
  pub cache_creation_input_tokens : Option ℤ

pub record Message : Type 0 where
  pub usage : Usage
  -- `none` is a block that is no text
  pub content : List (Option String)

pub record Services (F : Type 0) : Type 0 where
  -- the text of a file in prompts/
  pub read_prompt : String → Result String
  pub claude : String → StateSnapshot F → Query F Message
  -- the content of the first choice
  pub deepseek : String → StateSnapshot F → Query F (Option String)
  -- `uuid4` of a decision
  pub decision_id : World F → String

abbrev or_zero : Option ℤ → ℤ
or_zero none = pos 0
or_zero (some n) = n

abbrev pub tokens_of : Usage → Tokens
tokens_of u = record {
  input_tokens = u.input_tokens;
  output_tokens = u.output_tokens;
  cache_read_tokens = or_zero u.cache_read_input_tokens;
  cache_write_tokens = or_zero u.cache_creation_input_tokens;
}

-- `_extract_text`
abbrev pub extract_text : List (Option String) → Result String
extract_text [] = err index_error
extract_text (none ∷ _) = err value_error
extract_text (some text ∷ _) = ok text

module _ {F : Type 0} (s : Services F) where
  unfoldable pub load_system_prompt : String → Result String
  load_system_prompt version =
      if is_prompt_version version then s.read_prompt (joined version ".md") else err value_error

module _ {F : Type 0} ⦃f : Float F⦄ (x : Exchange F) (py : Python F) (s : Services F) where
  -- The part of `decide` after the reply.
  abbrev pub after_message : Message → Action F (Decision F)
  after_message m w =
      (do
        _ ← record_api_usage x w.settings.claude_model (tokens_of m.usage)
        text ← lift (extract_text m.content)
        lift (parse_decision_json py (s.decision_id w) text))
        w

  unfoldable pub claude_decide : StateSnapshot F → Action F (Decision F)
  claude_decide state w =
      (do
        prompt ← lift (load_system_prompt s state.prompt_version)
        m ← query (s.claude prompt state)
        after_message m)
        w

  abbrev parse_content : Option String → Query F (Decision F)
  parse_content none w = err value_error
  parse_content (some text) w = parse_decision_json py (s.decision_id w) text

  unfoldable pub deepseek_decide : StateSnapshot F → Action F (Decision F)
  deepseek_decide state w =
      (do
        prompt ← lift (load_system_prompt s state.prompt_version)
        content ← query (s.deepseek prompt state)
        query (parse_content content))
        w
