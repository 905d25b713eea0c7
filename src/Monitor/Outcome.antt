-- ===== src/Monitor/Outcome.antt =====
-- What the series of core/api/monitor_snapshot.py come to: their lengths, and the errors that they
-- can raise.
use mathlib.Core.Path.{subst⁻¹, subst}
use toss_invest_ai.Prelude.{
  ℕ, suc, ◌-◌, Bool, true, false, Option, none, some, List, [], ◌∷◌, ◌≡◌, refl, ap, ◌⊎◌, inl, inr,
  map, arith, nat_eq, Bool-cases, if◌then◌else◌,
}
use toss_invest_ai.Prelude.Int.{ℤ}
use toss_invest_ai.Prelude.Lists.{length, All}
use toss_invest_ai.Prelude.Sort.{sort_by-All, take_last, drop-All}
use toss_invest_ai.Float.{Float, ◌⊖◌}
use toss_invest_ai.Models.{
  Error, Result, ok, err, or_error, ◌>>=◌, key_error, overflow_error, zero_division_error,
  not_a_number_error, no_whole,
}
use toss_invest_ai.Monitor.Series.{
  value_at, sorted_keys, map_result, values_at, bars_after, bars_from_values, win_rate_pct,
  avg_daily_return_pct,
}

-- The errors of arithmetic: an infinity or NaN that is made a whole number, and a division by zero.
abbrev pub IsArithmetic : Error → Type 0
IsArithmetic e = (e ≡ overflow_error) ⊎ ((e ≡ zero_division_error) ⊎ (e ≡ not_a_number_error))

-- A result with this property, or an error of arithmetic.
abbrev pub Outcome : {A : Type 0} → (A → Type 0) → Result A → Type 0
Outcome P (ok a) = P a
Outcome P (err e) = IsArithmetic e

-- Any value.
abbrev pub Anything : {A : Type 0} → A → Type 0
Anything a = Unit {0}

pub bind-Outcome :
    {A B : Type 0} (P : A → Type 0) (Q : B → Type 0) (m : Result A) (k : A → Result B)
    → Outcome P m
    → ((a : A) → P a → Outcome Q (k a))
    → Outcome Q (m >>= k)
bind-Outcome P Q (ok a) k p next = next a p
bind-Outcome P Q (err e) k p next = p

-- As above, where the next step is told what the first one gave.
pub given-Outcome :
    {A B : Type 0} (P : A → Type 0) (Q : B → Type 0) (m : Result A) (k : A → Result B)
    → Outcome P m
    → ((a : A) → m ≡ ok a → P a → Outcome Q (k a))
    → Outcome Q (m >>= k)
given-Outcome P Q (ok a) k p next = next a refl p
given-Outcome P Q (err e) k p next = p

pub weaker-Outcome :
    {A : Type 0} (P Q : A → Type 0) (m : Result A)
    → ((a : A) → P a → Q a)
    → Outcome P m
    → Outcome Q m
weaker-Outcome P Q (ok a) weaken p = weaken a p
weaker-Outcome P Q (err e) weaken p = p

pub if-Outcome :
    {A : Type 0} (P : A → Type 0) (b : Bool) (m n : Result A)
    → (b ≡ true → Outcome P m)
    → (b ≡ false → Outcome P n)
    → Outcome P (if b then m else n)
if-Outcome P true m n holds fails = holds refl
if-Outcome P false m n holds fails = fails refl

pub overflow-Outcome :
    {F A : Type 0} ⦃f : Float F⦄ (v : F) (o : Option A) → Outcome Anything (or_error (no_whole v) o)
overflow-Outcome v none = ground arith
overflow-Outcome v (some a) = tt

pub division-Outcome :
    {A : Type 0} (o : Option A) → Outcome Anything (or_error zero_division_error o)
division-Outcome none = inr (inl refl)
division-Outcome (some a) = tt

pub map_result-Outcome :
    {A B : Type 0} (g : A → Result B) (xs : List A)
    → All (λ x. Outcome Anything (g x)) xs
    → Outcome (λ ys. length ys ≡ length xs) (map_result g xs)
unfolding map_result
map_result-Outcome g [] _ = refl
map_result-Outcome g (x ∷ xs) (p, ps) =
    bind-Outcome Anything (λ ys. length ys ≡ suc (length xs)) (g x) _ p
      (λ y _.
        bind-Outcome (λ ys. length ys ≡ length xs) (λ ys. length ys ≡ suc (length xs))
          (map_result g xs) (λ ys. ok (y ∷ ys)) (map_result-Outcome g xs ps) (λ ys e. ap suc e))

module _ {A : Type 0} where
  -- Every key has a value.
  abbrev pub HasValues : List (ℕ × A) → List ℕ → Type 0
  HasValues d = All (λ k. (v : A) × (value_at k d ≡ some v))

  HasValues-cons :
      (j : ℕ) (u : A) (d : List (ℕ × A)) (ks : List ℕ) → HasValues d ks → HasValues ((j, u) ∷ d) ks
  unfolding value_at
  HasValues-cons j u d [] _ = tt
  HasValues-cons j u d (k ∷ ks) ((v, e), vs) = (
    elim (Bool-cases (nat_eq j k)) [
      | inl same ↦ (u, ground (arith, same))
      | inr other ↦ (v, ground (arith, other, e))
    ],
    HasValues-cons j u d ks vs,
  )

  keys-HasValues : (d : List (ℕ × A)) → HasValues d (map (λ q. q.0) d)
  unfolding value_at
  keys-HasValues [] = tt
  keys-HasValues ((j, u) ∷ d) =
      ((u, ground arith), HasValues-cons j u d (map (λ q. q.0) d) (keys-HasValues d))

  pub sorted_keys-HasValues : (d : List (ℕ × A)) → HasValues d (sorted_keys d)
  sorted_keys-HasValues d = sort_by-All _ _ (map (λ q. q.0) d) (keys-HasValues d)

  pub take_last-HasValues :
      (d : List (ℕ × A)) (n : ℕ) (ks : List ℕ) → HasValues d ks → HasValues d (take_last n ks)
  take_last-HasValues d n ks vs = drop-All _ (length ks - n) ks vs

minus_one : (n : ℕ) → n ≡ suc n - 1
minus_one n = omega arith

module _ {F : Type 0} ⦃f : Float F⦄ where
  values_found :
      (d : List (ℕ × F)) (ks : List ℕ)
      → HasValues d ks
      → All (λ k. Outcome Anything (or_error key_error (value_at k d))) ks
  values_found d [] _ = tt
  values_found d (k ∷ ks) ((v, e), vs) =
      (subst⁻¹ (λ o. Outcome Anything (or_error key_error o)) e tt, values_found d ks vs)

  pub values_at-Outcome :
      (d : List (ℕ × F)) (ks : List ℕ)
      → HasValues d ks
      → Outcome (λ vs. length vs ≡ length ks) (values_at d ks)
  values_at-Outcome d ks vs = map_result-Outcome _ ks (values_found d ks vs)

  bars_after-Outcome :
      (v : F) (vs : List F) → Outcome (λ bs. length bs ≡ length vs) (bars_after v vs)
  unfolding bars_after
  bars_after-Outcome v [] = refl
  bars_after-Outcome v (u ∷ us) =
      bind-Outcome Anything (λ bs. length bs ≡ suc (length us)) _ _
        (overflow-Outcome (u ⊖ v) (f.truncate (u ⊖ v)))
        (λ b _.
          bind-Outcome (λ bs. length bs ≡ length us) (λ bs. length bs ≡ suc (length us))
            (bars_after u us) (λ bs. ok (b ∷ bs)) (bars_after-Outcome u us) (λ bs e. ap suc e))

  pub bars_from_values-Outcome :
      (vs : List F) → Outcome (λ bs. length bs ≡ length vs - 1) (bars_from_values vs)
  unfolding bars_from_values
  bars_from_values-Outcome [] = refl
  bars_from_values-Outcome (v ∷ vs) =
      subst (λ n. Outcome (λ bs. length bs ≡ n) (bars_after v vs)) (minus_one (length vs))
        (bars_after-Outcome v vs)

module _ (F : Type 0) ⦃f : Float F⦄ where
  pub avg_daily_return_pct-Outcome :
      (seed : ℤ) (bs : List ℤ) → Outcome (Anything {A = F}) (avg_daily_return_pct seed bs)
  unfolding avg_daily_return_pct
  avg_daily_return_pct-Outcome seed [] = tt
  avg_daily_return_pct-Outcome seed (b ∷ bs) = ground arith

  pub win_rate_pct-Outcome : (bs : List ℤ) → Outcome (Anything {A = ℤ}) (win_rate_pct F bs)
  unfolding win_rate_pct
  win_rate_pct-Outcome [] = tt
  win_rate_pct-Outcome (b ∷ bs) = ground arith
