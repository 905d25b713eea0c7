-- ===== src/Fund/Usage.antt =====
-- `record_api_usage` of core/fund/manager.py: the cost of a call of an AI model.
use toss_invest_ai.Prelude.{
  ℕ, ◌≤◌, String, some, List, [], ◌∷◌, ◌++◌, ◌≡◌, refl, arith, inl, inr, leb, if◌then◌else◌,
}
use toss_invest_ai.Prelude.Int.{ℤ, pos, ◌+ℤ◌}
use toss_invest_ai.Float.{Float, ◌⊕◌, ◌⊗◌, of_int, decimal, divide}
use toss_invest_ai.Models.{Result, ok, or_error, zero_division_error, Result-cases, truncated}
use toss_invest_ai.World.{World, Exchange, Action, ApiUsage, lift, with_database, ◌>>=◌}
use toss_invest_ai.Store.{sum_costs_since, get_api_usage_month_krw}

-- The token counts of a call.
pub record Tokens : Type 0 where
  pub input_tokens : ℤ
  pub output_tokens : ℤ
  pub cache_read_tokens : ℤ
  pub cache_write_tokens : ℤ

module _ {F : Type 0} ⦃f : Float F⦄ where
  abbrev per_token : F → Result F
  per_token price = or_error zero_division_error (divide price (of_int (pos 1_000_000)))

  abbrev cost_usd : Tokens → F → F → F
  cost_usd t p_in p_out =
      of_int t.input_tokens ⊗ p_in
      ⊕ of_int t.cache_write_tokens ⊗ p_in ⊗ decimal 125 2
      ⊕ of_int t.cache_read_tokens ⊗ p_in ⊗ decimal 10 2
      ⊕ of_int t.output_tokens ⊗ p_out

  -- At 1382 won for a dollar.
  abbrev cost_krw : F → Result ℤ
  cost_krw cost = truncated (cost ⊗ decimal 13_820 1)

module _ {F : Type 0} ⦃f : Float F⦄ (x : Exchange F) where
  abbrev usage_row : String → Tokens → F → ℤ → World F → ApiUsage F
  usage_row model t usd krw w = record {
    model = model;
    cost_usd = x.numeric_column usd;
    cost_krw = krw;
    input_tokens = t.input_tokens;
    output_tokens = t.output_tokens;
    cache_read_tokens = t.cache_read_tokens;
    cache_write_tokens = t.cache_write_tokens;
    created_at = w.now;
  }

  abbrev insert_api_usage : String → Tokens → F → Action F (Unit {0})
  insert_api_usage model t usd w =
      (do
        krw ← lift (cost_krw usd)
        with_database
            (λ db. record db { api_usage = db.api_usage ++ (usage_row model t usd krw w ∷ []) }))
        w

  unfoldable pub record_api_usage : String → Tokens → Action F (Unit {0})
  record_api_usage model t w =
      (do
        p_in ← lift (per_token w.settings.claude_input_price_per_mtok)
        p_out ← lift (per_token w.settings.claude_output_price_per_mtok)
        insert_api_usage model t (cost_usd t p_in p_out))
        w

  -- What the row of a call is: it has every count of tokens, and its cost is the tokens read at the
  -- price of the input, those written to the cache at 1.25 and those read from it at 0.10 of that
  -- price, and those of the reply at the price of the output, a price being for a million tokens.
  pub record IsCharged (model : String) (t : Tokens) (w : World F) (u : ApiUsage F) : Type 0 where
    pub same_model : u.model ≡ model
    pub read : u.input_tokens ≡ t.input_tokens
    pub replied : u.output_tokens ≡ t.output_tokens
    pub read_from_cache : u.cache_read_tokens ≡ t.cache_read_tokens
    pub written_to_cache : u.cache_write_tokens ≡ t.cache_write_tokens
    pub recorded : u.created_at ≡ w.now
    pub p_in : F
    pub p_out : F
    pub dollars : F
    pub input_price :
        divide w.settings.claude_input_price_per_mtok (of_int (pos 1_000_000)) ≡ some p_in
    pub output_price :
        divide w.settings.claude_output_price_per_mtok (of_int (pos 1_000_000)) ≡ some p_out
    pub costs :
        dollars
        ≡ of_int t.input_tokens ⊗ p_in
          ⊕ of_int t.cache_write_tokens ⊗ p_in ⊗ decimal 125 2
          ⊕ of_int t.cache_read_tokens ⊗ p_in ⊗ decimal 10 2
          ⊕ of_int t.output_tokens ⊗ p_out
    pub in_dollars : u.cost_usd ≡ x.numeric_column dollars
    pub in_won : f.truncate (dollars ⊗ decimal 13_820 1) ≡ some u.cost_krw

  add_assoc : (a b c : ℤ) → a +ℤ (b +ℤ c) ≡ (a +ℤ b) +ℤ c
  unfolding ◌+ℤ◌
  add_assoc a b c = ground arith

  sum_costs_since-snoc :
      (start : ℕ) (us : List (ApiUsage F)) (u : ApiUsage F)
      → start ≤ u.created_at
      → sum_costs_since start (us ++ (u ∷ [])) ≡ sum_costs_since start us +ℤ u.cost_krw
  unfolding sum_costs_since ◌+ℤ◌
  sum_costs_since-snoc start [] u h = ground arith
  sum_costs_since-snoc start (v ∷ us) u h = ground (
    arith,
    sum_costs_since-snoc start us u h,
    add_assoc (if leb start v.created_at then v.cost_krw else pos 0) (sum_costs_since start us)
        u.cost_krw,
  )

  -- If the call of a model is recorded in the month that it was made in, then one row is added to
  -- api_usage, which has every count of tokens of the call and its cost in dollars and won by the
  -- prices of the settings, and the cost of the month has grown by the cost of that row.
  pub record_api_usage-adds :
      (model : String) (t : Tokens) (w : World F)
      → x.month_start w.now ≤ w.now
      → (record_api_usage model t w).0 ≡ ok tt
      → (u : ApiUsage F) × ((record_api_usage model t w).1.database.api_usage
          ≡ w.database.api_usage ++ (u ∷ []))
        × IsCharged model t w u
        × (get_api_usage_month_krw x (record_api_usage model t w).1
            ≡ get_api_usage_month_krw x w +ℤ u.cost_krw)
  unfolding record_api_usage get_api_usage_month_krw
  record_api_usage-adds model t w recent h =
      elim (Result-cases (per_token w.settings.claude_input_price_per_mtok)) [
        | inr (e, failed) ↦ ground arith
        | inl (p_in, h1) ↦ elim (Result-cases (per_token w.settings.claude_output_price_per_mtok)) [
          | inr (e, failed) ↦ ground arith
          | inl (p_out, h2) ↦ elim (Result-cases (cost_krw (cost_usd t p_in p_out))) [
            | inr (e, failed) ↦ ground arith
            | inl (krw, h3) ↦
                let row = usage_row model t (cost_usd t p_in p_out) krw w in
                let total =
                  sum_costs_since-snoc (x.month_start w.now) w.database.api_usage row recent in
                let charged : IsCharged model t w row = record {
                  same_model = refl;
                  read = refl;
                  replied = refl;
                  read_from_cache = refl;
                  written_to_cache = refl;
                  recorded = refl;
                  p_in = p_in;
                  p_out = p_out;
                  dollars = cost_usd t p_in p_out;
                  input_price = ground (arith, h1);
                  output_price = ground (arith, h2);
                  costs = refl;
                  in_dollars = refl;
                  in_won = ground (arith, h3);
                } in
                (row, ground arith, charged, ground (arith, total))
          ]
        ]
      ]
