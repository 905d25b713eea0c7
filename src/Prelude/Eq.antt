-- ===== src/Prelude/Eq.antt =====
-- Keys that can be compared: the interface of Python's `==` on dictionary keys.
use mathlib.Core.Path.{◌≡◌, refl}
use mathlib.Core.Logic.{◌↔◌}
use mathlib.Core.Bool.{Bool, true}
use Prim.Native.String.{String}
use text.Mathlib.TextEquality.{eq_iff}
use text.Mathlib.Text.{◌==◌ as same_text}

pub record Equality {ℓ} (Key : Type ℓ) : Type ℓ where
  pub compare : Key → Key → Bool
  pub compare_iff : (i j : Key) → (compare i j ≡ true) ↔ (i ≡ j)

instance abbrev pub string_equality : Equality String
string_equality = record { compare = same_text; compare_iff = eq_iff }

module _ {ℓ} {Key : Type ℓ} ⦃q : Equality Key⦄ where
  infix 50 ◌==◌
  abbrev pub ◌==◌ : Key → Key → Bool
  i == j = q.compare i j

  pub ==_refl : (i : Key) → (i == i) ≡ true
  ==_refl i = (q.compare_iff i i).1 refl
