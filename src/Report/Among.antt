-- ===== src/Report/Among.antt =====
-- The elements of a list through the steps by which a report selects its trades
-- (core/report/extras.py).
use mathlib.Core.Path.{subst}
use toss_invest_ai.Prelude.{
  ℕ, zero, suc, ◌≤◌, ◌⊎◌, Bool, true, false, List, [], ◌∷◌, ◌++◌, ◌≡◌, ◌∙◌, refl, ap, arith, inl,
  inr, if◌then◌else◌,
}
use toss_invest_ai.Prelude.Lists.{AnyOf, keep, length}
use toss_invest_ai.Prelude.Sort.{sort_by, insert_sorted, take, drop}

module _ {A : Type 0} where
  abbrev pub IsAmong : List A → A → Type 0
  IsAmong ts t = AnyOf (λ u. u ≡ t) ts

  put_if-IsAmong :
      (b : Bool) (t : A) (ts : List A) → b ≡ true → IsAmong (if b then t ∷ ts else ts) t
  put_if-IsAmong true t ts h = inl refl
  put_if-IsAmong false t ts h = let bad : ⊥ = cc h in elim bad [ ]

  put_if-later :
      (b : Bool) (u t : A) (ts : List A) → IsAmong ts t → IsAmong (if b then u ∷ ts else ts) t
  put_if-later true u t ts h = inr h
  put_if-later false u t ts h = h

  pub keep-IsAmong :
      (p : A → Bool) (t : A) (ts : List A) → p t ≡ true → IsAmong ts t → IsAmong (keep p ts) t
  keep-IsAmong p t [] holds h = elim h [ ]
  keep-IsAmong p t (u ∷ ts) holds (inl same) =
      subst (λ v. IsAmong (if p u then u ∷ keep p ts else keep p ts) v) same
        (put_if-IsAmong (p u) u (keep p ts) (ap p same ∙ holds))
  keep-IsAmong p t (u ∷ ts) holds (inr later) =
      put_if-later (p u) u t (keep p ts) (keep-IsAmong p t ts holds later)

  pub append-IsAmong : (t : A) (ts us : List A) → IsAmong ts t ⊎ IsAmong us t → IsAmong (ts ++ us) t
  append-IsAmong t [] us (inl h) = elim h [ ]
  append-IsAmong t [] us (inr h) = h
  append-IsAmong t (u ∷ ts) us (inl (inl same)) = inl same
  append-IsAmong t (u ∷ ts) us (inl (inr h)) = inr (append-IsAmong t ts us (inl h))
  append-IsAmong t (u ∷ ts) us (inr h) = inr (append-IsAmong t ts us (inr h))

  insert_sorted-IsAmong :
      (before : A → A → Bool) (t u : A) (ts : List A)
      → (u ≡ t) ⊎ IsAmong ts t
      → IsAmong (insert_sorted before u ts) t
  unfolding insert_sorted
  insert_sorted-IsAmong before t u [] h = h
  insert_sorted-IsAmong before t u (v ∷ ts) h =
      placed (before v u) _ (λ h'. insert_sorted-IsAmong before t u ts h') h
    where
      placed :
          (b : Bool) (rest : List A)
          → ((u ≡ t) ⊎ IsAmong ts t → IsAmong rest t)
          → (u ≡ t) ⊎ ((v ≡ t) ⊎ IsAmong ts t)
          → IsAmong (if b then v ∷ rest else u ∷ v ∷ ts) t
      placed true rest deeper (inl same) = inr (deeper (inl same))
      placed true rest deeper (inr (inl same)) = inl same
      placed true rest deeper (inr (inr h')) = inr (deeper (inr h'))
      placed false rest deeper h' = h'

  pub sort_by-IsAmong :
      (before : A → A → Bool) (t : A) (ts : List A) → IsAmong ts t → IsAmong (sort_by before ts) t
  unfolding sort_by
  sort_by-IsAmong before t [] h = elim h [ ]
  sort_by-IsAmong before t (u ∷ ts) (inl same) =
      insert_sorted-IsAmong before t u (sort_by before ts) (inl same)
  sort_by-IsAmong before t (u ∷ ts) (inr h) =
      insert_sorted-IsAmong before t u (sort_by before ts) (inr (sort_by-IsAmong before t ts h))

  pub take_and_drop : (n : ℕ) (ts : List A) → take n ts ++ drop n ts ≡ ts
  unfolding take drop
  take_and_drop zero ts = refl
  take_and_drop (suc n) [] = refl
  take_and_drop (suc n) (t ∷ ts) = ap (◌∷◌ t) (take_and_drop n ts)

  pub take-IsFull :
      (n : ℕ) (ts : List A)
      → (length (take n ts) ≡ n) ⊎ ((length (take n ts) ≤ n) × (drop n ts ≡ []))
  unfolding take drop
  take-IsFull zero ts = inl refl
  take-IsFull (suc n) [] = inr (omega arith, refl)
  take-IsFull (suc n) (t ∷ ts) = elim (take-IsFull n ts) [
    | inl same ↦ inl (ap suc same)
    | inr (few, none_left) ↦ inr (omega (arith, few), none_left)
  ]
