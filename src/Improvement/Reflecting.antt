-- ===== src/Improvement/Reflecting.antt =====
-- core/trading/reflection.py: the daily self-assessment, whose proposed change is tried as a candidate.
use toss_invest_ai.Prelude.{
  ℕ, String, string_equality, Bool, ◌||◌, Option, none, some, List, [], ◌∷◌, ◌++◌, ◌==◌,
  if◌then◌else◌,
}
use toss_invest_ai.Float.{Float}
use toss_invest_ai.Config.{run_mode}
use toss_invest_ai.Models.{Market, ok}
use toss_invest_ai.World.{
  World, Exchange, Action, Query, Reflection, query, lift, with_database, publish_event,
  reflection_ready, ◌>>=◌,
}
use toss_invest_ai.Fund.Usage.{record_api_usage}
use toss_invest_ai.Gateway.Services.{Message, tokens_of, extract_text}
use toss_invest_ai.Improvement.Candidate.{Trial, propose_candidate}

-- Python's operations on a text, the model's reply to the day's trades and refusals, and the text
-- with its title.
pub record Reflecting (F : Type 0) : Type 0 where
  pub lines : String → List String
  pub strip : String → String
  -- `stripped.upper().startswith("PROPOSED_CHANGE:")`
  pub is_marked : String → Bool
  -- `stripped.split(":", 1)[1]`
  pub after_colon : String → String
  pub assess : Market → Query F Message
  pub titled : Market → ℕ → String → String

module _ {F : Type 0} (r : Reflecting F) where
  abbrev change_of : String → Option String
  change_of value = if value == "" || value == "없음" then none else some value

  -- The last line with the mark decides: `later` is what the lines after this one say.
  abbrev or_this : String → Option (Option String) → Option (Option String)
  or_this line (some found) = some found
  or_this line none =
      if r.is_marked (r.strip line)
      then some (change_of (r.strip (r.after_colon (r.strip line))))
      else none

  unfoldable pub last_marked : List String → Option (Option String)
  last_marked [] = none
  last_marked (l ∷ ls) = or_this l (last_marked ls)

  unfoldable pub extract_proposed_change : String → Option String
  extract_proposed_change content = elim (last_marked (r.lines content)) [
    | none ↦ none
    | some found ↦ found
  ]

module _ {F : Type 0} ⦃f : Float F⦄ (x : Exchange F) (r : Reflecting F) (t : Trial F) where
  -- `call_freeform` of core/gateway/claude.py
  abbrev pub call_freeform : Query F Message → Action F String
  call_freeform ask w =
      (do
        m ← query ask
        _ ← record_api_usage x w.settings.claude_model (tokens_of m.usage)
        lift (extract_text m.content))
        w

  abbrev reflection_row : Market → String → World F → Reflection
  reflection_row market content w = record {
    market = market;
    mode = run_mode w.settings;
    content_md = r.titled market w.now content;
    proposed_change = extract_proposed_change r content;
    created_at = w.now;
  }

  -- What a failed proposal raises is logged; what it wrote stays.
  abbrev pub tried : Market → Option String → Action F (Unit {0})
  tried market none w = (ok tt, w)
  tried market (some change) w = (ok tt, (propose_candidate t market change w).1)

  abbrev pub after_content : Market → String → Action F (Unit {0})
  after_content market content w =
      (do
        _ ← with_database (λ db. record db {
          reflections = db.reflections ++ (reflection_row market content w ∷ []);
        })
        _ ←
            publish_event (run_mode w.settings) (some market)
              (reflection_ready market (r.titled market w.now content))
        tried market (extract_proposed_change r content))
        w

  unfoldable pub run_reflection : Market → Action F (Unit {0})
  run_reflection market = do content ← call_freeform (r.assess market); after_content market content
