-- ===== src/Prelude/Dict.antt =====
-- A Python dict, in insertion order, over any type of keys that can be compared.
use mathlib.Core.Path.{◌≡◌, refl}
use mathlib.Core.Bool.{false}
use mathlib.Core.List.{List, [], ◌∷◌, ◌++◌}
use mathlib.Core.Option.{Option, none, some}
use native.Mathlib.Omega.{arith}
use toss_invest_ai.Prelude.Tests.{if◌then◌else◌}
use toss_invest_ai.Prelude.Eq.{Equality, ◌==◌}

module _ {ℓ} {K : Type 0} ⦃e : Equality K⦄ {V : Type ℓ} where
  -- `d.get(k)`
  unfoldable pub lookup : K → List (K × V) → Option V
  lookup k [] = none
  lookup k ((j, v) ∷ d) = if j == k then some v else lookup k d

  -- `d[k] = v`
  unfoldable pub insert : K → V → List (K × V) → List (K × V)
  insert k v [] = (k, v) ∷ []
  insert k v ((j, w) ∷ d) = if j == k then (k, v) ∷ d else (j, w) ∷ insert k v d

  -- `del d[k]`
  unfoldable pub erase : K → List (K × V) → List (K × V)
  erase k [] = []
  erase k ((j, w) ∷ d) = if j == k then d else (j, w) ∷ erase k d

  pub lookup-insert :
      (k j : K) (v : V) (d : List (K × V))
      → lookup j (insert k v d) ≡ (if k == j then some v else lookup j d)
  unfolding lookup insert
  lookup-insert k j v [] = refl
  lookup-insert k j v ((i, w) ∷ d) =
      ground (arith, e.compare_iff k j, e.compare_iff i k, e.compare_iff i j, lookup-insert k j v d)

  -- No key is listed twice.
  abbrev pub NodupKeys : List (K × V) → Type ℓ
  NodupKeys [] = Unit
  NodupKeys ((k, v) ∷ d) = (lookup k d ≡ none) × NodupKeys d

  pub lookup-erase_ne :
      (k j : K) (d : List (K × V)) → (k == j) ≡ false → lookup j (erase k d) ≡ lookup j d
  unfolding lookup erase
  lookup-erase_ne k j [] h = refl
  lookup-erase_ne k j ((i, w) ∷ d) h =
      ground
        (arith, e.compare_iff k j, e.compare_iff i k, e.compare_iff i j, lookup-erase_ne k j d h)

  pub lookup-erase_absent :
      (k j : K) (d : List (K × V)) → lookup j d ≡ none → lookup j (erase k d) ≡ none
  unfolding lookup erase
  lookup-erase_absent k j [] h = refl
  lookup-erase_absent k j ((i, w) ∷ d) h = ground (arith, lookup-erase_absent k j d)

  pub lookup-erase_self : (k : K) (d : List (K × V)) → NodupKeys d → lookup k (erase k d) ≡ none
  unfolding lookup erase
  lookup-erase_self k [] n = refl
  lookup-erase_self k ((i, w) ∷ d) n = ground (arith, e.compare_iff i k, lookup-erase_self k d n.1)

  pub insert-NodupKeys : (k : K) (v : V) (d : List (K × V)) → NodupKeys d → NodupKeys (insert k v d)
  unfolding lookup insert
  insert-NodupKeys k v [] n = (refl, tt)
  insert-NodupKeys k v ((i, w) ∷ d) n = ground (
    arith,
    e.compare_iff i k,
    e.compare_iff k i,
    lookup-insert k i v d,
    insert-NodupKeys k v d n.1,
  )

  pub erase-NodupKeys : (k : K) (d : List (K × V)) → NodupKeys d → NodupKeys (erase k d)
  unfolding lookup erase
  erase-NodupKeys k [] n = tt
  erase-NodupKeys k ((i, w) ∷ d) n =
      ground (arith, lookup-erase_absent k i d, erase-NodupKeys k d n.1)

  -- A key that is not there is added at the end.
  pub insert_absent :
      (k : K) (v : V) (d : List (K × V)) → lookup k d ≡ none → insert k v d ≡ d ++ ((k, v) ∷ [])
  unfolding lookup insert
  insert_absent k v [] h = refl
  insert_absent k v ((i, w) ∷ d) h = ground (arith, insert_absent k v d)

  lookup_append :
      (j : K) (front back : List (K × V))
      → lookup j (front ++ back) ≡ none
      → (lookup j front ≡ none) × (lookup j back ≡ none)
  unfolding lookup
  lookup_append j [] back h = (refl, h)
  lookup_append j ((i, w) ∷ front) back h = ground (arith, lookup_append j front back)

  -- In a dict without repeated keys a later key does not stand in the part before it.
  pub lookup_before :
      (k : K) (v : V) (front back : List (K × V))
      → NodupKeys (front ++ (k, v) ∷ back)
      → lookup k front ≡ none
  unfolding lookup
  lookup_before k v [] back n = refl
  lookup_before k v ((i, w) ∷ front) back (h, n) = ground (
    arith,
    e.compare_iff i k,
    e.compare_iff k i,
    lookup_append i front ((k, v) ∷ back) h,
    lookup_before k v front back n,
  )
