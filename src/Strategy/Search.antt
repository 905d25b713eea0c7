-- ===== src/Strategy/Search.antt =====
-- What a found signal and a listed holding say of the lists that were searched.
use toss_invest_ai.Prelude.{
  String, string_equality, false, none, some, List, [], ◌∷◌, ◌==◌, ◌≡◌, refl, ◌⊎◌, inl, inr, arith,
  Bool-cases,
}
use text.Mathlib.TextEquality.{eq_iff}
use toss_invest_ai.Prelude.Lists.{AnyOf}
use toss_invest_ai.Prelude.Dict.{lookup, insert, lookup-insert}
use toss_invest_ai.Models.{Decision, ok}
use toss_invest_ai.Strategy.State.{Signal, first_signal, or_else, by_symbol, is_held}
use toss_invest_ai.Models.{StateHolding}

module _ {F : Type 0} where
  pub or_else-some :
      (a b : Signal F) (d : Decision F)
      → or_else a b ≡ ok (some d)
      → (a ≡ ok (some d)) ⊎ (b ≡ ok (some d))
  or_else-some a b d h = ground arith

  pub first_signal-AnyOf :
      {A : Type 0} (g : A → Signal F) (xs : List A) (d : Decision F)
      → first_signal g xs ≡ ok (some d)
      → AnyOf (λ a. g a ≡ ok (some d)) xs
  first_signal-AnyOf g [] d h = cc
  first_signal-AnyOf g (a ∷ xs) d h = elim (or_else-some (g a) (first_signal g xs) d h) [
    | inl e ↦ inl e
    | inr e ↦ inr (first_signal-AnyOf g xs d e)
  ]

pub AnyOf-map :
    {A : Type 0} {P Q : A → Type 0} (xs : List A) → ((a : A) → P a → Q a) → AnyOf P xs → AnyOf Q xs
AnyOf-map [] k p = p
AnyOf-map (x ∷ xs) k (inl p) = inl (k x p)
AnyOf-map (x ∷ xs) k (inr p) = inr (AnyOf-map xs k p)

module _ {V : Type 0} where
  insert-AnyOf :
      (P : String × V → Type 0) (k : String) (v : V) (d : List (String × V))
      → AnyOf P (insert k v d)
      → P (k, v) ⊎ AnyOf P d
  unfolding insert
  insert-AnyOf P k v [] (inl p) = inl p
  insert-AnyOf P k v [] (inr p) = elim p [ ]
  insert-AnyOf P k v ((j, w) ∷ d) p = elim (Bool-cases (j == k)) [
    | inl same ↦
        let q : AnyOf P ((k, v) ∷ d) = rw same at p in
        elim q [ inl r ↦ inl r | inr r ↦ inr (inr r) ]
    | inr other ↦
        let q : AnyOf P ((j, w) ∷ insert k v d) = rw other at p in
        elim q [
          | inl r ↦ inr (inl r)
          | inr r ↦ elim (insert-AnyOf P k v d r) [ inl s ↦ inl s | inr s ↦ inr (inr s) ]
        ]
  ]

  pub lookup-AnyOf :
      (k : String) (v : V) (d : List (String × V))
      → lookup k d ≡ some v
      → AnyOf (λ e. (e.0 ≡ k) × (e.1 ≡ v)) d
  unfolding lookup
  lookup-AnyOf k v [] h = cc
  lookup-AnyOf k v ((j, w) ∷ d) h = ground (arith, eq_iff j k, lookup-AnyOf k v d)

module _ {F : Type 0} where
  pub by_symbol-AnyOf :
      (P : String × StateHolding F → Type 0) (acc : List (String × StateHolding F))
      (hs : List (StateHolding F))
      → AnyOf P (by_symbol acc hs)
      → AnyOf P acc ⊎ AnyOf (λ h. P (h.symbol, h)) hs
  unfolding by_symbol
  by_symbol-AnyOf P acc [] p = inl p
  by_symbol-AnyOf P acc (h ∷ hs) p = elim (by_symbol-AnyOf P (insert h.symbol h acc) hs p) [
    | inr q ↦ inr (inr q)
    | inl q ↦ elim (insert-AnyOf P h.symbol h acc q) [ inl r ↦ inr (inl r) | inr r ↦ inl r ]
  ]

  -- A symbol that the dictionary does not hold is held nowhere.
  pub lookup-by_symbol :
      (s : String) (acc : List (String × StateHolding F)) (hs : List (StateHolding F))
      → lookup s (by_symbol acc hs) ≡ none
      → (lookup s acc ≡ none) × (is_held s hs ≡ false)
  unfolding by_symbol is_held
  lookup-by_symbol s acc [] h = (h, refl)
  lookup-by_symbol s acc (k ∷ hs) h =
      let (before, rest) = lookup-by_symbol s (insert k.symbol k acc) hs h in
      ground (arith, lookup-insert k.symbol s k acc)

pub AnyOf-common :
    {A C : Type 0} (P : A → Type 0) (xs : List A) → AnyOf (λ a. C × P a) xs → C × AnyOf P xs
AnyOf-common P [] p = elim p [ ]
AnyOf-common P (x ∷ xs) (inl p) = (p.0, inl p.1)
AnyOf-common P (x ∷ xs) (inr p) = let (c, q) = AnyOf-common P xs p in (c, inr q)
