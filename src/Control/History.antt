-- ===== src/Control/History.antt =====
-- The stop flags outlive the process, in every state that commands, restarts and the passing of
-- time lead to.
use toss_invest_ai.Prelude.{ℕ, String, Bool, true, Option, List, ◌≡◌, ◌∙◌, ap}
use mathlib.Core.Path.{subst⁻¹}
use toss_invest_ai.Config.{Settings}
use toss_invest_ai.Models.{Market, Result}
use toss_invest_ai.Control.State.{Control, OpenOrder, flags_of, get_control_flags}
use toss_invest_ai.Control.Commands.{post_stop, post_resume, post_simulate, post_dryrun, restart}
use toss_invest_ai.Control.Lasting.{
  IsPersisted, stop-IsPersisted, simulate-IsPersisted, dryrun-IsPersisted, restart-IsPersisted,
  resume-IsPersisted, stop-emergency_stop, simulate-emergency_stop, restart-emergency_stop,
}

module _ {F : Type 0} where
  -- What happens to the process, but a resumption: a command, a restart with any environment, or the
  -- passing of time.
  pub data Command (c c' : Control F) : Type 0 where
    stop :
        (pending : Result (List OpenOrder)) (cancel : String → Bool) (m : Option Market)
        → c' ≡ (post_stop pending cancel m c).1
        → Command c c'
    simulate : (on : Bool) → c' ≡ (post_simulate on c).1 → Command c c'
    dryrun : (on : Bool) → c' ≡ post_dryrun on c → Command c c'
    restarts : (environment : Settings F) → c' ≡ restart environment c → Command c c'
    later : (t : ℕ) → c' ≡ record c { now = t } → Command c c'

  pub data Unresumed (c : Control F) : Control F → Type 0 where
    unchanged : Unresumed c c
    and_then : {u t : Control F} → Unresumed c u → Command u t → Unresumed c t

  pub data History (c : Control F) : Control F → Type 0 where
    begun : History c c
    commanded : {u t : Control F} → History c u → Command u t → History c t
    resumed : {u t : Control F} → History c u → t ≡ post_resume u → History c t

  Command-IsPersisted : {c c' : Control F} → Command c c' → IsPersisted c → IsPersisted c'
  unfolding get_control_flags
  Command-IsPersisted {c} (stop pending cancel m e) p =
      subst⁻¹ IsPersisted e (stop-IsPersisted pending cancel m c)
  Command-IsPersisted {c} (simulate on e) p = subst⁻¹ IsPersisted e (simulate-IsPersisted on c p)
  Command-IsPersisted {c} (dryrun on e) p = subst⁻¹ IsPersisted e (dryrun-IsPersisted on c p)
  Command-IsPersisted {c} (restarts environment e) p =
      subst⁻¹ IsPersisted e (restart-IsPersisted environment c)
  Command-IsPersisted (later t e) p = subst⁻¹ IsPersisted e p

  -- After a start of the process, with any environment and any database, whatever commands,
  -- resumptions, restarts and passing of time follow, the three stop flags in memory are those that
  -- the database has.
  pub History-IsPersisted :
      (environment : Settings F) (c : Control F) {c' : Control F}
      → History (restart environment c) c'
      → flags_of c'.settings ≡ get_control_flags c'
  History-IsPersisted environment c begun = restart-IsPersisted environment c
  History-IsPersisted environment c (commanded h s) =
      Command-IsPersisted s (History-IsPersisted environment c h)
  History-IsPersisted environment c {c'} (resumed {u} h e) =
      subst⁻¹ IsPersisted e (resume-IsPersisted u)

  Command-emergency_stop :
      {c c' : Control F}
      → Command c c'
      → c.settings.emergency_stop ≡ true
      → IsPersisted c
      → c'.settings.emergency_stop ≡ true
  unfolding post_dryrun
  Command-emergency_stop {c} (stop pending cancel m e) h p =
      ap (λ q. q.settings.emergency_stop) e ∙ stop-emergency_stop pending cancel m c h
  Command-emergency_stop {c} (simulate on e) h p =
      ap (λ q. q.settings.emergency_stop) e ∙ simulate-emergency_stop on c ∙ h
  Command-emergency_stop (dryrun on e) h p = ap (λ q. q.settings.emergency_stop) e ∙ h
  Command-emergency_stop {c} (restarts environment e) h p =
      ap (λ q. q.settings.emergency_stop) e ∙ restart-emergency_stop environment c h p
  Command-emergency_stop (later t e) h p = ap (λ q. q.settings.emergency_stop) e ∙ h

  Unresumed-both :
      {c c' : Control F}
      → Unresumed c c'
      → c.settings.emergency_stop ≡ true
      → IsPersisted c
      → (c'.settings.emergency_stop ≡ true) × IsPersisted c'
  Unresumed-both unchanged h p = (h, p)
  Unresumed-both (and_then r s) h p =
      let (h', p') = Unresumed-both r h p in
      (Command-emergency_stop s h' p', Command-IsPersisted s p')

  -- If the emergency stop is set and the flags in memory are those of the database, then it stays
  -- set through all commands but a resumption, through restarts with any environment and the
  -- passing of time.
  pub Unresumed-emergency_stop :
      {c c' : Control F}
      → Unresumed c c'
      → c.settings.emergency_stop ≡ true
      → IsPersisted c
      → c'.settings.emergency_stop ≡ true
  Unresumed-emergency_stop r h p = (Unresumed-both r h p).0
