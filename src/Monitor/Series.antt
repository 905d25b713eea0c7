-- ===== src/Monitor/Series.antt =====
-- The series of values and bars of core/api/monitor_snapshot.py.
use toss_invest_ai.Prelude.{
  ℕ, suc, zero, ◌+◌, ◌-◌, ◌/◌, ◌%◌, Bool, true, false, ◌&&◌, Option, none, some, List, [], ◌∷◌,
  ◌++◌, map, leb, ltb, nat_eq, if◌then◌else◌,
}
use toss_invest_ai.Prelude.Int.{ℤ, pos, ltb_ℤ}
use toss_invest_ai.Prelude.Lists.{length, keep}
use toss_invest_ai.Prelude.Sort.{sort_by, take_last}
use toss_invest_ai.Float.{Float, ◌⊕◌, ◌⊖◌, ◌⊗◌, of_int, divide}
use toss_invest_ai.Models.{
  Result, ok, err, or_error, ◌>>=◌, value_error, key_error, zero_division_error, truncated, rounded,
}
use toss_invest_ai.World.{PortfolioSnapshot}
use toss_invest_ai.Store.{kst_date}
use toss_invest_ai.Store.Usage.{sum_ℤ}

-- A dictionary with numbers as keys: days, or hours.
abbrev pub set_at : {A : Type 0} → ℕ → A → List (ℕ × A) → List (ℕ × A)
set_at k v [] = (k, v) ∷ []
set_at k v ((j, u) ∷ d) = if nat_eq j k then (k, v) ∷ d else (j, u) ∷ set_at k v d

unfoldable pub value_at : {A : Type 0} → ℕ → List (ℕ × A) → Option A
value_at k [] = none
value_at k ((j, u) ∷ d) = if nat_eq j k then some u else value_at k d

-- `sorted(d.keys())`
abbrev pub sorted_keys : {A : Type 0} → List (ℕ × A) → List ℕ
sorted_keys d = sort_by ltb (map (λ q. q.0) d)

-- The hour of a time in KST, counted like the days.
abbrev pub kst_hour : ℕ → ℕ
kst_hour t = (t + 32_400) / 3_600

-- What stands under a bar: the last one, every third one, and nothing.
pub data Label : Type 0 where
  newest_label : Label
  time_label : ℕ → Label
  no_label : Label

-- The index of the first key is the first argument.
unfoldable pub labels_from : ℕ → List ℕ → List Label
labels_from i [] = []
labels_from i (k ∷ []) = newest_label ∷ []
labels_from i (k ∷ j ∷ ks) =
    (if nat_eq (i % 3) 0 then time_label k else no_label) ∷ labels_from (suc i) (j ∷ ks)

-- `xs[-n:]`, which is the whole list for 0.
abbrev pub last_or_all : {A : Type 0} → ℕ → List A → List A
last_or_all zero xs = xs
last_or_all (suc n) xs = take_last (suc n) xs

-- `zip(xs, ys, strict=True)`
unfoldable pub zip_strict : {A B : Type 0} → List A → List B → Result (List (A × B))
zip_strict [] [] = ok []
zip_strict (x ∷ xs) (y ∷ ys) = zip_strict xs ys >>= λ rest. ok ((x, y) ∷ rest)
zip_strict _ _ = err value_error

unfoldable pub repeat : {A : Type 0} → ℕ → A → List A
repeat zero x = []
repeat (suc n) x = x ∷ repeat n x

unfoldable pub map_result : {A B : Type 0} → (A → Result B) → List A → Result (List B)
map_result g [] = ok []
map_result g (x ∷ xs) = do y ← g x; ys ← map_result g xs; ok (y ∷ ys)

abbrev pub is_up : ℤ → Bool
is_up b = ltb_ℤ (pos 0) b

abbrev pub is_down : ℤ → Bool
is_down b = ltb_ℤ b (pos 0)

module _ {F : Type 0} ⦃f : Float F⦄ where
  -- The days so far with their last value, and the snapshots to come, the oldest first.
  unfoldable pub daily_last_from : List (ℕ × F) → List PortfolioSnapshot → List (ℕ × F)
  daily_last_from d [] = d
  daily_last_from d (s ∷ ss) =
      daily_last_from (set_at (kst_date s.snapshot_at) (of_int s.total_value_krw) d) ss

  abbrev pub daily_last_values : List PortfolioSnapshot → List (ℕ × F)
  daily_last_values = daily_last_from []

  unfoldable pub hourly_last_from : ℕ → List (ℕ × F) → List PortfolioSnapshot → List (ℕ × F)
  hourly_last_from today d [] = d
  hourly_last_from today d (s ∷ ss) =
      hourly_last_from today
        (if nat_eq (kst_date s.snapshot_at) today
          then set_at (kst_hour s.snapshot_at) (of_int s.total_value_krw) d
          else d)
        ss

  abbrev pub hourly_last_values_today : ℕ → List PortfolioSnapshot → List (ℕ × F)
  hourly_last_values_today now = hourly_last_from (kst_date now) []

  -- `[d[k] for k in keys]`
  abbrev pub values_at : List (ℕ × F) → List ℕ → Result (List F)
  values_at d = map_result (λ k. or_error key_error (value_at k d))

  unfoldable pub bars_after : F → List F → Result (List ℤ)
  bars_after before [] = ok []
  bars_after before (v ∷ vs) = do
    bar ← truncated (v ⊖ before)
    bars ← bars_after v vs
    ok (bar ∷ bars)

  unfoldable pub bars_from_values : List F → Result (List ℤ)
  bars_from_values [] = ok []
  bars_from_values (v ∷ vs) = bars_after v vs

  abbrev pub quotient_of : F → F → Result F
  quotient_of a b = or_error zero_division_error (divide a b)

  unfoldable pub avg_daily_return_pct : ℤ → List ℤ → Result F
  avg_daily_return_pct seed [] = ok (of_int (pos 0))
  avg_daily_return_pct seed (b ∷ bs) = do
    mean ← quotient_of (of_int (sum_ℤ (λ x. x) (b ∷ bs))) (of_int (pos (length (b ∷ bs))))
    share ← quotient_of mean (of_int seed)
    ok (share ⊗ of_int (pos 100))

  -- `_tail` of `_blended_benchmark_bars`: the last returns, with zeros in front where there are few.
  unfoldable pub tail_of : ℕ → Option (List F) → List F
  tail_of n none = repeat n (of_int (pos 0)) ++ []
  tail_of n (some rs) =
      if leb n (length rs) then last_or_all n rs else repeat (n - length rs) (of_int (pos 0)) ++ rs

  -- `not returns`
  abbrev pub is_missing : Option (List F) → Bool
  is_missing none = true
  is_missing (some []) = true
  is_missing (some (_ ∷ _)) = false

  abbrev pub benchmark_bar : F → F → F → F × F → Result ℤ
  benchmark_bar kr_weight us_weight base q = rounded ((kr_weight ⊗ q.0 ⊕ us_weight ⊗ q.1) ⊗ base)

  unfoldable pub blended_benchmark_bars :
      ℕ → Option (List F) → Option (List F) → F → F → F → Result (List ℤ)
  blended_benchmark_bars n kr_returns us_returns kr_weight us_weight base =
      if is_missing kr_returns && is_missing us_returns
      then ok []
      else (zip_strict (tail_of n kr_returns) (tail_of n us_returns)
          >>= map_result (benchmark_bar kr_weight us_weight base))

module _ (F : Type 0) ⦃f : Float F⦄ where
  unfoldable pub win_rate_pct : List ℤ → Result ℤ
  win_rate_pct [] = ok (pos 0)
  win_rate_pct (b ∷ bs) = do
    share ←
        quotient_of {F = F} (of_int (pos (length (keep is_up (b ∷ bs)))))
          (of_int (pos (length (b ∷ bs))))
    rounded (share ⊗ of_int (pos 100))
