-- ===== src/Control/Lasting.antt =====
-- What each command and a restart do to the stop flags, in memory and in the database.
use toss_invest_ai.Prelude.{String, Bool, true, Option, List, [], ◌∷◌, ◌≡◌, refl, arith, ap, ◌∙◌}
use toss_invest_ai.Config.{Settings, run_mode}
use toss_invest_ai.Models.{Market, Result, ok, err, Mode, live, simulation, dry_run}
use toss_invest_ai.Control.State.{
  Control, OpenOrder, flags_of, set_control_flags, set_simulation_started_at, get_control_flags,
}
use toss_invest_ai.Control.Commands.{
  cancel_open_orders, post_stop, post_resume, post_simulate, post_dryrun, restart, cancel_each,
  cancel_one, cancel_in_mode, persist_control_flags, set_settings, raised,
}

module _ {F : Type 0} where
  -- The flags in memory are those of the database.
  abbrev pub IsPersisted : Control F → Type 0
  IsPersisted c = flags_of c.settings ≡ get_control_flags c

  -- The settings and the row are as they were.
  record SameControl (c c' : Control F) : Type 0 where
    settings : c'.settings ≡ c.settings
    row : c'.row ≡ c.row

  cancel_one-SameControl :
      (cancel : String → Bool) (m : Option Market) (o : OpenOrder) (acc : List String × Control F)
      → SameControl acc.1 (cancel_one cancel m o acc).1
  cancel_one-SameControl cancel m o acc = ground arith

  cancel_each-SameControl :
      (cancel : String → Bool) (m : Option Market) (os : List OpenOrder)
      (acc : List String × Control F)
      → SameControl acc.1 (cancel_each cancel m os acc).1
  cancel_each-SameControl cancel m [] acc = record { settings = refl; row = refl }
  cancel_each-SameControl cancel m (o ∷ os) acc =
      let first = cancel_one-SameControl cancel m o acc in
      let rest = cancel_each-SameControl cancel m os (cancel_one cancel m o acc) in
      record { settings = rest.settings ∙ first.settings; row = rest.row ∙ first.row }

  cancel_in_mode-SameControl :
      (pending : Result (List OpenOrder)) (cancel : String → Bool) (mode : Mode) (m : Option Market)
      (c : Control F)
      → SameControl c (cancel_in_mode pending cancel mode m c).1
  cancel_in_mode-SameControl (ok os) cancel live m c = cancel_each-SameControl cancel m os ([], c)
  cancel_in_mode-SameControl (err e) cancel live m c = record { settings = refl; row = refl }
  cancel_in_mode-SameControl pending cancel simulation m c = record { settings = refl; row = refl }
  cancel_in_mode-SameControl pending cancel dry_run m c = record { settings = refl; row = refl }

  -- The state before the cancellations of a stop.
  abbrev stopped : Option Market → Control F → Control F
  stopped m c = persist_control_flags (set_settings (raised m) c)

  stopped-IsPersisted : (m : Option Market) (c : Control F) → IsPersisted (stopped m c)
  unfolding set_control_flags get_control_flags
  stopped-IsPersisted m c = ground arith

  SameControl-IsPersisted : {c c' : Control F} → SameControl c c' → IsPersisted c → IsPersisted c'
  unfolding get_control_flags
  SameControl-IsPersisted s p = rw (s.settings, s.row) p

  -- What a stop sets stays set in the state after its cancellations.
  stop-SameControl :
      (pending : Result (List OpenOrder)) (cancel : String → Bool) (m : Option Market)
      (c : Control F)
      → SameControl (stopped m c) (post_stop pending cancel m c).1
  unfolding post_stop cancel_open_orders
  stop-SameControl pending cancel m c =
      let s =
        cancel_in_mode-SameControl pending cancel (run_mode (stopped m c).settings) m
          (stopped m c) in
      record { settings = s.settings; row = s.row }

  pub stop-IsPersisted :
      (pending : Result (List OpenOrder)) (cancel : String → Bool) (m : Option Market)
      (c : Control F)
      → IsPersisted (post_stop pending cancel m c).1
  stop-IsPersisted pending cancel m c =
      SameControl-IsPersisted (stop-SameControl pending cancel m c) (stopped-IsPersisted m c)

  pub simulate-IsPersisted :
      (on : Bool) (c : Control F) → IsPersisted c → IsPersisted (post_simulate on c).1
  unfolding post_simulate set_simulation_started_at get_control_flags
  simulate-IsPersisted on c p = ground arith

  pub restart-IsPersisted : (e : Settings F) (c : Control F) → IsPersisted (restart e c)
  unfolding restart set_simulation_started_at get_control_flags
  restart-IsPersisted e c = ground arith

  pub resume-IsPersisted : (c : Control F) → IsPersisted (post_resume c)
  unfolding post_resume set_control_flags get_control_flags
  resume-IsPersisted c = ground arith

  pub dryrun-IsPersisted :
      (on : Bool) (c : Control F) → IsPersisted c → IsPersisted (post_dryrun on c)
  unfolding post_dryrun get_control_flags
  dryrun-IsPersisted on c p = p

  stopped-emergency_stop :
      (m : Option Market) (c : Control F)
      → c.settings.emergency_stop ≡ true
      → (stopped m c).settings.emergency_stop ≡ true
  unfolding set_control_flags
  stopped-emergency_stop m c h = ground arith

  pub stop-emergency_stop :
      (pending : Result (List OpenOrder)) (cancel : String → Bool) (m : Option Market)
      (c : Control F)
      → c.settings.emergency_stop ≡ true
      → (post_stop pending cancel m c).1.settings.emergency_stop ≡ true
  stop-emergency_stop pending cancel m c h =
      ap (λ s. s.emergency_stop) (stop-SameControl pending cancel m c).settings
      ∙ stopped-emergency_stop m c h

  pub simulate-emergency_stop :
      (on : Bool) (c : Control F)
      → (post_simulate on c).1.settings.emergency_stop ≡ c.settings.emergency_stop
  unfolding post_simulate set_simulation_started_at
  simulate-emergency_stop on c = ground arith

  pub restart-emergency_stop :
      (e : Settings F) (c : Control F)
      → c.settings.emergency_stop ≡ true
      → IsPersisted c
      → (restart e c).settings.emergency_stop ≡ true
  unfolding restart set_simulation_started_at get_control_flags
  restart-emergency_stop e c h p = ground arith
