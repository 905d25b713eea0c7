-- ===== src/Control/Commands.antt =====
-- The handlers of stop, resume, simulate and dryrun, and the restart of the process.
use toss_invest_ai.Prelude.{
  ℕ, ◌-◌, ◌*◌, String, Bool, true, false, Option, none, some, List, [], ◌∷◌, ltb, if◌then◌else◌,
}
use toss_invest_ai.Config.{Settings, run_mode}
use toss_invest_ai.Models.{Market, kr, us, Mode, live, Result, ok, err}
use toss_invest_ai.Control.State.{
  Control, OpenOrder, flags_of, with_flags, row_start, set_control_flags, set_simulation_started_at,
  get_control_flags,
}

-- `o.get("market") in markets`, where no market stands for both
abbrev pub is_among : Option Market → Option Market → Bool
is_among none none = false
is_among none (some _) = true
is_among (some m) none = false
is_among (some kr) (some kr) = true
is_among (some us) (some us) = true
is_among (some _) (some _) = false

abbrev pub min_simulation_seconds : ℕ
min_simulation_seconds = 14 * 86_400

-- The seconds since the start; 0 where there is none.
abbrev pub elapsed : ℕ → Option ℕ → ℕ
elapsed now none = 0
elapsed now (some t) = now - t

module _ {F : Type 0} where
  abbrev pub set_settings : (Settings F → Settings F) → Control F → Control F
  set_settings k c = record c { settings = k c.settings }

  abbrev pub persist_control_flags : Control F → Control F
  persist_control_flags c =
      let g = flags_of c.settings in record (set_control_flags g c) { cache = some g }

  abbrev pub raised : Option Market → Settings F → Settings F
  raised none s = record s { emergency_stop = true }
  raised (some kr) s = record s { kr_stop = true }
  raised (some us) s = record s { us_stop = true }

-- The replies of the exchange: its open orders, and whether a cancellation succeeded.
module _ {F : Type 0} (cancel : String → Bool) where
  abbrev pub if_cancelled : String → List String × Control F → List String × Control F
  if_cancelled id (done, c) =
      (if cancel id then id ∷ done else done, record c { cancellations = id ∷ c.cancellations })

  abbrev pub cancel_one :
      Option Market → OpenOrder → List String × Control F → List String × Control F
  cancel_one market o acc = elim o.order_id [
    | none ↦ acc
    | some id ↦ if is_among market o.market then if_cancelled id acc else acc
  ]

  -- The cancelled orders, the newest first.
  abbrev pub cancel_each :
      Option Market → List OpenOrder → List String × Control F → List String × Control F
  cancel_each market [] acc = acc
  cancel_each market (o ∷ os) acc = cancel_each market os (cancel_one market o acc)

module _ {F : Type 0} (pending : Result (List OpenOrder)) (cancel : String → Bool) where
  abbrev pub cancel_fetched :
      Option Market → Result (List OpenOrder) → Control F → List String × Control F
  cancel_fetched market (err e) c = ([], c)
  cancel_fetched market (ok os) c = cancel_each cancel market os ([], c)

  abbrev pub cancel_in_mode : Mode → Option Market → Control F → List String × Control F
  cancel_in_mode live market c = cancel_fetched market pending c
  cancel_in_mode _ market c = ([], c)

  unfoldable pub cancel_open_orders : Option Market → Control F → List String × Control F
  cancel_open_orders market c = cancel_in_mode (run_mode c.settings) market c

  abbrev pub announce : Option Market → List String × Control F → List String × Control F
  announce market (done, c) = (
    done,
    record c {
      events =
          record {
            mode = run_mode c.settings;
            market = market;
            flags = flags_of c.settings;
            cancelled = done;
          }
          ∷ c.events;
    },
  )

  -- The flag is set and stored before the orders are cancelled. A market that is neither KR nor US
  -- is `none`. The result has the cancelled orders.
  unfoldable pub post_stop : Option Market → Control F → List String × Control F
  post_stop market c =
      announce market
        (cancel_open_orders market (persist_control_flags (set_settings (raised market) c)))

module _ {F : Type 0} where
  unfoldable pub post_resume : Control F → Control F
  post_resume c = persist_control_flags (
      set_settings
        (with_flags (record { emergency_stop = false; kr_stop = false; us_stop = false })) c)

  abbrev pub turned_on : Control F → Control F
  turned_on c =
      set_settings (λ s. record s { is_simulation = true })
        (if c.settings.is_simulation then c else set_simulation_started_at (some c.now) c)

  abbrev pub turned_off : Control F → Control F
  turned_off c = set_settings (λ s. record s { is_simulation = false }) c

  abbrev pub refused_off : Control F → Bool
  refused_off c =
      if c.settings.is_simulation
      then ltb (elapsed c.now (row_start c.row)) min_simulation_seconds
      else false

  -- With `success` of the reply.
  unfoldable pub post_simulate : Bool → Control F → Bool × Control F
  post_simulate true c = (true, turned_on c)
  post_simulate false c = if refused_off c then (false, c) else (true, turned_off c)

  unfoldable pub post_dryrun : Bool → Control F → Control F
  post_dryrun on c = set_settings (λ s. record s { is_dry_run = on }) c

  abbrev pub restore_control_flags : Control F → Control F
  restore_control_flags c = set_settings (with_flags (get_control_flags c)) c

  abbrev pub restore_simulation_clock : Control F → Control F
  restore_simulation_clock c =
      if c.settings.is_simulation
      then (elim (row_start c.row) [ none ↦ set_simulation_started_at (some c.now) c | some _ ↦ c ])
      else c

  -- The process ends and starts again, with the settings of its environment.
  unfoldable pub restart : Settings F → Control F → Control F
  restart environment c =
      restore_simulation_clock (restore_control_flags (record c { settings = environment }))
