-- ===== src/Toss/Spacing.antt =====
-- The pauses between orders at the opening, of core/toss/client.py.
use mathlib.Core.Path.{subst⁻¹}
use toss_invest_ai.Prelude.{◌≢◌, ℕ, ◌+◌, ◌≤◌, true, Option, none, some, ◌≡◌, arith}
use toss_invest_ai.Toss.Link.{
  Group, Link, Expiring, is_peak_time, peak_rate_limit, set_for, current,
}
use toss_invest_ai.Toss.Client.{enforce_peak_spacing, pause_after, noted, is_spaced}

-- The note of an order holds for five seconds.
abbrev IsNote : ℕ → Option (Expiring ℕ) → Type 0
IsNote now none = Unit
IsNote now (some e) = (e.value ≤ now) × (e.expires ≡ e.value + 5_000)

-- Every note of a last order is of the past.
pub record HasNotes (l : Link) : Type 0 where
  pub notes : (g : Group) → IsNote l.now (l.last_orders g)

-- An order of this moment comes 400 ms after the one that was noted, if there is one.
abbrev pub IsApart : ℕ → Option (Expiring ℕ) → Type 0
IsApart now none = Unit
IsApart now (some e) = e.value + 400 ≤ now

pause-IsApart :
    (l : Link) (o : Option (Expiring ℕ))
    → IsNote l.now o
    → IsApart (pause_after (current l.now o) l).now o
pause-IsApart l none n = tt
pause-IsApart l (some e) (past, ends) = ground (arith, past, ends)

is_spaced_lem :
    (g : Group) (now : ℕ)
    → peak_rate_limit g ≢ none
    → is_peak_time now ≡ true
    → is_spaced g now ≡ true
is_spaced_lem g now limited peak = ground (arith, limited, peak)

set_for_same : {A : Type 0} (g : Group) (a : A) (f : Group → A) → set_for g a f g ≡ a
set_for_same g a f = ground arith

abbrev pub note_at : ℕ → Option (Expiring ℕ)
note_at now = some (record { value = now; expires = now + 5_000 })

spaced_effect :
    (g : Group) (l : Link)
    → is_spaced g l.now ≡ true
    → enforce_peak_spacing g l ≡ noted g (pause_after (current l.now (l.last_orders g)) l)
unfolding enforce_peak_spacing
spaced_effect g l spaced = ground (arith, spaced)

-- In the ten minutes from 09:00 KST, where every noted order is of the past and noted for five
-- seconds, an order of a group with a limit for those minutes goes on 400 ms after the noted one of
-- its group or later, and the time at which it goes on is the new note.
pub enforce_peak_spacing-IsApart :
    (g : Group) (l : Link)
    → HasNotes l
    → peak_rate_limit g ≢ none
    → is_peak_time l.now ≡ true
    → IsApart (enforce_peak_spacing g l).now (l.last_orders g)
      × ((enforce_peak_spacing g l).last_orders g ≡ note_at (enforce_peak_spacing g l).now)
enforce_peak_spacing-IsApart g l n limited peak =
    let o = l.last_orders g in
    let paused = pause_after (current l.now o) l in
    subst⁻¹ (λ l'. IsApart l'.now o × (l'.last_orders g ≡ note_at l'.now))
      (spaced_effect g l (is_spaced_lem g l.now limited peak))
      (pause-IsApart l o (n.notes g), set_for_same g (note_at paused.now) paused.last_orders)
