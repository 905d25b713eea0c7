-- ===== src/Monitor/Shape.antt =====
-- The shape of the chart of core/api/monitor_snapshot.py: how many bars and labels it has.
use mathlib.Core.Path.{subst⁻¹, subst}
use toss_invest_ai.Prelude.{
  ℕ, zero, suc, ◌+◌, ◌-◌, ◌≤◌, Bool, true, false, ◌&&◌, Option, none, some, List, [], ◌∷◌, ◌++◌,
  ◌≡◌, refl, ap, ◌∙◌, ◌⊎◌, inl, inr, arith, sym, leb, Bool-cases, if◌then◌else◌,
}
use toss_invest_ai.Prelude.Int.{ℤ, pos, ◌+ℤ◌, eq_of_parts, +ℤ_parts}
use toss_invest_ai.Prelude.Lists.{length, length-append, All, keep}
use toss_invest_ai.Prelude.Sort.{take_last, length-drop}
use toss_invest_ai.Float.{Float, of_int, ◌⊕◌, ◌⊗◌}
use toss_invest_ai.Models.{ok}
use toss_invest_ai.Store.Usage.{sum_ℤ}
use toss_invest_ai.Monitor.Series.{
  labels_from, zip_strict, repeat, map_result, is_up, is_down, tail_of, is_missing, benchmark_bar,
  blended_benchmark_bars,
}
use toss_invest_ai.Monitor.Chart.{rest_of}
use toss_invest_ai.Monitor.Outcome.{
  Outcome, weaker-Outcome, Anything, bind-Outcome, if-Outcome, overflow-Outcome, map_result-Outcome,
}

pub length-labels_from : (i : ℕ) (ks : List ℕ) → length (labels_from i ks) ≡ length ks
unfolding labels_from
length-labels_from i [] = refl
length-labels_from i (k ∷ []) = refl
length-labels_from i (k ∷ j ∷ ks) = ap suc (length-labels_from (suc i) (j ∷ ks))

pub length-rest_of : {A : Type 0} (xs : List A) → length (rest_of xs) ≡ length xs - 1
length-rest_of [] = omega arith
length-rest_of (x ∷ xs) = omega arith

length-repeat : {A : Type 0} (n : ℕ) (x : A) → length (repeat n x) ≡ n
unfolding repeat
length-repeat zero x = refl
length-repeat (suc n) x = ap suc (length-repeat n x)

pub length-take_last :
    {A : Type 0} (n : ℕ) (xs : List A) → length (take_last n xs) ≡ length xs - (length xs - n)
length-take_last n xs = length-drop (length xs - n) xs

zip_strict-Outcome :
    {A B : Type 0} (xs : List A) (ys : List B)
    → length xs ≡ length ys
    → Outcome (λ zs. length zs ≡ length xs) (zip_strict xs ys)
unfolding zip_strict
zip_strict-Outcome [] [] same = refl
zip_strict-Outcome [] (y ∷ ys) same = let bad : ⊥ = omega (arith, same) in elim bad [ ]
zip_strict-Outcome (x ∷ xs) [] same = let bad : ⊥ = omega (arith, same) in elim bad [ ]
zip_strict-Outcome (x ∷ xs) (y ∷ ys) same =
    bind-Outcome (λ zs. length zs ≡ length xs) (λ zs. length zs ≡ suc (length xs))
      (zip_strict xs ys) (λ zs. ok ((x, y) ∷ zs)) (zip_strict-Outcome xs ys (omega (arith, same)))
      (λ zs e. ap suc e)

+ℤ_assoc : (a b c : ℤ) → a +ℤ b +ℤ c ≡ a +ℤ (b +ℤ c)
+ℤ_assoc a b c =
    eq_of_parts (a +ℤ b +ℤ c) (a +ℤ (b +ℤ c))
      (omega (arith, +ℤ_parts a b, +ℤ_parts (a +ℤ b) c, +ℤ_parts b c, +ℤ_parts a (b +ℤ c)))

+ℤ_left_comm : (a b c : ℤ) → a +ℤ (b +ℤ c) ≡ b +ℤ (a +ℤ c)
+ℤ_left_comm a b c =
    eq_of_parts (a +ℤ (b +ℤ c)) (b +ℤ (a +ℤ c))
      (omega (arith, +ℤ_parts b c, +ℤ_parts a (b +ℤ c), +ℤ_parts a c, +ℤ_parts b (a +ℤ c)))

+ℤ_level : (b s : ℤ) → is_up b ≡ false → is_down b ≡ false → s ≡ b +ℤ s
+ℤ_level b s up down = eq_of_parts s (b +ℤ s) (ground (arith, up, down, +ℤ_parts b s))

up_not_down : (b : ℤ) → is_up b ≡ true → is_down b ≡ false
up_not_down b up = ground (arith, up)

abbrev total : List ℤ → ℤ
total = sum_ℤ (λ b. b)

abbrev put_if : Bool → ℤ → List ℤ → List ℤ
put_if b x xs = if b then x ∷ xs else xs

up_and_down-step :
    (up down : Bool) (b : ℤ) (us ds : List ℤ) (s : ℤ)
    → is_up b ≡ up
    → is_down b ≡ down
    → total us +ℤ total ds ≡ s
    → total (put_if up b us) +ℤ total (put_if down b ds) ≡ b +ℤ s
unfolding sum_ℤ
up_and_down-step true true b us ds s e d h = let bad : ⊥ = cc (up_not_down b e, d) in elim bad [ ]
up_and_down-step true false b us ds s e d h = +ℤ_assoc b (total us) (total ds) ∙ ap (λ z. b +ℤ z) h
up_and_down-step false true b us ds s e d h =
    +ℤ_left_comm (total us) b (total ds) ∙ ap (λ z. b +ℤ z) h
up_and_down-step false false b us ds s e d h = h ∙ +ℤ_level b s e d

-- The bars that go up and those that go down add up to all of them.
pub up_and_down-sum :
    (bs : List ℤ)
    → sum_ℤ (λ b. b) (keep is_up bs) +ℤ sum_ℤ (λ b. b) (keep is_down bs) ≡ sum_ℤ (λ b. b) bs
unfolding sum_ℤ
up_and_down-sum [] = eq_of_parts (pos 0 +ℤ pos 0) (pos 0) (omega (arith, +ℤ_parts (pos 0) (pos 0)))
up_and_down-sum (b ∷ bs) =
    up_and_down-step (is_up b) (is_down b) b (keep is_up bs) (keep is_down bs) (total bs) refl refl
      (up_and_down-sum bs)

pub up_and_down-length :
    (bs : List ℤ) → length (keep is_up bs) + length (keep is_down bs) ≤ length bs
up_and_down-length [] = omega arith
up_and_down-length (b ∷ bs) = ground (arith, up_and_down-length bs)

-- There is no bar of the benchmark, or as many as others.
abbrev pub HasBars : ℕ → List ℤ → Type 0
HasBars n bs = (bs ≡ []) ⊎ (length bs ≡ n)

module _ {F : Type 0} ⦃f : Float F⦄ where
  enough-length :
      (n : ℕ) (rs : List F) → leb (suc n) (length rs) ≡ true → length (take_last (suc n) rs) ≡ suc n
  enough-length n rs enough = ground (arith, length-take_last (suc n) rs, enough)

  few-length :
      (n : ℕ) (zero_return : F) (rs : List F)
      → leb n (length rs) ≡ false
      → length (repeat (n - length rs) zero_return ++ rs) ≡ n
  few-length n zero_return rs few = ground (
    arith,
    few,
    length-append (repeat (n - length rs) zero_return) rs,
    length-repeat (n - length rs) zero_return,
  )

  length-tail_of : (n : ℕ) (o : Option (List F)) → length (tail_of (suc n) o) ≡ suc n
  unfolding tail_of
  length-tail_of n none = omega (
    arith,
    length-append (repeat (suc n) (of_int (pos 0))) [],
    length-repeat (suc n) (of_int (pos 0)),
  )
  length-tail_of n (some rs) = elim (Bool-cases (leb (suc n) (length rs))) [
    | inl enough ↦
        subst⁻¹
          (λ b.
            length (
              if b then take_last (suc n) rs else repeat (suc n - length rs) (of_int (pos 0)) ++ rs)
            ≡ suc n)
          enough (enough-length n rs enough)
    | inr few ↦
        subst⁻¹
          (λ b.
            length (
              if b then take_last (suc n) rs else repeat (suc n - length rs) (of_int (pos 0)) ++ rs)
            ≡ suc n)
          few (few-length (suc n) (of_int (pos 0)) rs few)
  ]

  each_bar :
      (kr_weight us_weight base : F) (qs : List (F × F))
      → All (λ q. Outcome Anything (benchmark_bar kr_weight us_weight base q)) qs
  each_bar kr_weight us_weight base [] = tt
  each_bar kr_weight us_weight base (q ∷ qs) = (
    overflow-Outcome ((kr_weight ⊗ q.0 ⊕ us_weight ⊗ q.1) ⊗ base)
        (f.round ((kr_weight ⊗ q.0 ⊕ us_weight ⊗ q.1) ⊗ base)),
    each_bar kr_weight us_weight base qs,
  )

  -- Both lists of returns are as long as the bars, so that zip does not fail.
  pub blended-Outcome :
      (n : ℕ) (kr_returns us_returns : Option (List F)) (kr_weight us_weight base : F)
      → Outcome
          (HasBars (suc n))
          (blended_benchmark_bars (suc n) kr_returns us_returns kr_weight us_weight base)
  unfolding blended_benchmark_bars
  blended-Outcome n kr_returns us_returns kr_weight us_weight base =
      if-Outcome (HasBars (suc n)) (is_missing kr_returns && is_missing us_returns) (ok []) _
        (λ _. inl refl)
        (λ _.
          bind-Outcome (λ qs. length qs ≡ suc n) (HasBars (suc n)) _ _
            (subst
              (λ k.
                Outcome (λ qs. length qs ≡ k)
                  (zip_strict (tail_of (suc n) kr_returns) (tail_of (suc n) us_returns)))
              (length-tail_of n kr_returns)
              (zip_strict-Outcome (tail_of (suc n) kr_returns) (tail_of (suc n) us_returns)
                (length-tail_of n kr_returns ∙ sym (length-tail_of n us_returns))))
            (λ qs e.
              subst
                (λ k. Outcome (HasBars k) (map_result (benchmark_bar kr_weight us_weight base) qs))
                e
                (weaker-Outcome (λ bs. length bs ≡ length qs) (HasBars (length qs))
                  (map_result (benchmark_bar kr_weight us_weight base) qs) (λ bs same. inr same)
                  (map_result-Outcome (benchmark_bar kr_weight us_weight base) qs
                    (each_bar kr_weight us_weight base qs)))))
