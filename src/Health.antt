-- ===== src/Health.antt =====
-- core/monitoring/health.py: the health of the machine, its thresholds and its alert.
use toss_invest_ai.Prelude.{
  String, string_equality, ◌↔◌, Bool, true, false, not, Option, none, some, List, [], ◌∷◌, ◌++◌,
  ◌≡◌, refl, ap, sym, ◌⊎◌, inl, inr, if◌then◌else◌,
}
use toss_invest_ai.Prelude.Int.{pos}
use toss_invest_ai.Float.{Float, of_int, less}
use toss_invest_ai.Config.{run_mode}
use toss_invest_ai.Models.{Error, Result, ok, err}
use toss_invest_ai.World.{
  World, Action, Query, HealthSnapshot, Warning, cpu_high, memory_high, disk_high, temp_high,
  toss_unreachable, Event, health_alert, maintenance_alert, publish_event, pure, ◌>>=◌, ◌>>◌,
}

-- What the request of the rate comes to: a reply, no reply in time or another failure, or the error
-- code "maintenance" with a message.
pub data Ping : Type 0 where
  replied no_reply : Ping
  in_maintenance : String → Ping

-- What `psutil` reads, or raises, and what the request of a rate comes to.
pub record Machine (F : Type 0) : Type 0 where
  -- of the CPU, of the memory and of the disk, in percent
  pub metrics : Query F (F × F × F)
  -- `none` where there is no such function
  pub sensors : Query F (Option (List (List F)))
  pub ping : World F → Ping

abbrev pub is_reachable : Ping → Bool
is_reachable replied = true
is_reachable _ = false

module _ {F : Type 0} ⦃f : Float F⦄ where
  abbrev pub first_reading : List (List F) → F
  first_reading [] = of_int (pos 0)
  first_reading ([] ∷ rest) = first_reading rest
  first_reading ((t ∷ _) ∷ rest) = t

  abbrev pub read_cpu_temp_c : Option (List (List F)) → F
  read_cpu_temp_c none = of_int (pos 0)
  read_cpu_temp_c (some temps) = first_reading temps

  abbrev pub warn_if : Bool → Warning F → List (Warning F)
  warn_if b x = if b then x ∷ [] else []

  unfoldable pub check_thresholds : HealthSnapshot F → List (Warning F)
  check_thresholds s =
      warn_if (less (of_int (pos 85)) s.cpu_pct) (cpu_high s.cpu_pct)
      ++ (warn_if (less (of_int (pos 80)) s.memory_pct) (memory_high s.memory_pct)
          ++ (warn_if (less (of_int (pos 90)) s.disk_pct) (disk_high s.disk_pct)
              ++ (warn_if (less (of_int (pos 75)) s.temp_c) (temp_high s.temp_c)
                  ++ warn_if (not s.toss_api_reachable) toss_unreachable)))

module _ {F : Type 0} ⦃f : Float F⦄ where
  -- A request that is refused for maintenance publishes an alert of its own before it raises.
  abbrev pub check_toss_reachable : Ping → Action F Bool
  check_toss_reachable replied w = pure true w
  check_toss_reachable no_reply w = pure false w
  check_toss_reachable (in_maintenance message) w =
      (publish_event (run_mode w.settings) none (maintenance_alert "/api/v1/exchange-rate" message)
          >> pure false)
        w

  abbrev pub snapshot_of : World F → F × F × F → Option (List (List F)) → Bool → HealthSnapshot F
  snapshot_of w (cpu, memory, disk) temps reachable = record {
    cpu_pct = cpu;
    memory_pct = memory;
    disk_pct = disk;
    temp_c = read_cpu_temp_c temps;
    toss_api_reachable = reachable;
    collected_at = w.now;
  }

  abbrev pub kept : HealthSnapshot F → Action F (HealthSnapshot F)
  kept s w = (ok s, record w { health = some s })

  -- The snapshot, from what was read.
  abbrev pub collected :
      Ping → Result (F × F × F) → Result (Option (List (List F))) → Action F (HealthSnapshot F)
  collected ping (err e) sensors w = (err e, w)
  collected ping (ok metrics) (err e) w = (err e, w)
  collected ping (ok metrics) (ok temps) w =
      (do reachable ← check_toss_reachable ping; kept (snapshot_of w metrics temps reachable)) w

  abbrev pub alert_of : HealthSnapshot F → List (Warning F) → Action F (HealthSnapshot F)
  alert_of s [] w = pure s w
  alert_of s (x ∷ xs) w =
      (publish_event (run_mode w.settings) none (health_alert (x ∷ xs) s) >> pure s) w

  -- A value is over its threshold, or the exchange did not reply.
  abbrev pub IsAlarming : HealthSnapshot F → Type 0
  IsAlarming s =
      (less (of_int (pos 85)) s.cpu_pct ≡ true)
      ⊎ ((less (of_int (pos 80)) s.memory_pct ≡ true)
          ⊎ ((less (of_int (pos 90)) s.disk_pct ≡ true)
              ⊎ ((less (of_int (pos 75)) s.temp_c ≡ true) ⊎ (s.toss_api_reachable ≡ false))))

  -- Whether a list of warnings is empty, as a condition says.
  abbrev WarnsIf : Type 0 → List (Warning F) → Type 0
  WarnsIf P xs =
      (P × (y : Warning F) × (ys : List (Warning F)) × (xs ≡ y ∷ ys)) ⊎ ((P → ⊥) × (xs ≡ []))

  warn_if-WarnsIf :
      (b : Bool) (x : Warning F) (rest : List (Warning F)) {P : Type 0}
      → WarnsIf P rest
      → WarnsIf ((b ≡ true) ⊎ P) (warn_if b x ++ rest)
  warn_if-WarnsIf true x rest h = inl (inl refl, x, rest, refl)
  warn_if-WarnsIf false x rest (inl (p, y, ys, e)) = inl (inr p, y, ys, e)
  warn_if-WarnsIf false x rest (inr (calm, e)) =
      inr (λ h. elim h [ inl bad ↦ cc bad | inr p ↦ calm p ], e)

  last-WarnsIf : (b : Bool) (x : Warning F) → WarnsIf (b ≡ false) (warn_if (not b) x)
  last-WarnsIf true x = inr (λ bad. cc bad, refl)
  last-WarnsIf false x = inl (refl, x, [], refl)

  check_thresholds-WarnsIf : (s : HealthSnapshot F) → WarnsIf (IsAlarming s) (check_thresholds s)
  unfolding check_thresholds
  check_thresholds-WarnsIf s =
      warn_if-WarnsIf (less (of_int (pos 85)) s.cpu_pct) (cpu_high s.cpu_pct) _ (
        warn_if-WarnsIf (less (of_int (pos 80)) s.memory_pct) (memory_high s.memory_pct) _ (
          warn_if-WarnsIf (less (of_int (pos 90)) s.disk_pct) (disk_high s.disk_pct) _ (
            warn_if-WarnsIf (less (of_int (pos 75)) s.temp_c) (temp_high s.temp_c) _
              (last-WarnsIf s.toss_api_reachable toss_unreachable))))

  abbrev pub alert_event : World F → HealthSnapshot F → List (Warning F) → Event F
  alert_event w s xs = record {
    mode = run_mode w.settings;
    market = none;
    payload = health_alert xs s;
    published_at = w.now;
  }

  -- The events with the alert of the request, where it was refused for maintenance.
  abbrev pub with_maintenance : Ping → World F → List (Event F)
  with_maintenance replied w = w.events
  with_maintenance no_reply w = w.events
  with_maintenance (in_maintenance message) w =
      record {
        mode = run_mode w.settings;
        market = none;
        payload = maintenance_alert "/api/v1/exchange-rate" message;
        published_at = w.now;
      }
      ∷ w.events

  -- What a check leaves: the snapshot, and a new event for the warnings or none.
  pub record IsChecked (ping : Ping) (w : World F) (s : HealthSnapshot F) (w' : World F)
      : Type 0 where
    pub latest : w'.health ≡ some s
    pub alert :
        (IsAlarming s
          × (w'.events ≡ alert_event w s (check_thresholds s) ∷ with_maintenance ping w))
        ⊎ ((IsAlarming s → ⊥) × (w'.events ≡ with_maintenance ping w))
    pub untouched : (w'.database ≡ w.database) × (w'.placed ≡ w.placed)

  -- The snapshot has what was read.
  pub record IsReading (ping : Ping) (metrics : Result (F × F × F))
      (sensors : Result (Option (List (List F)))) (w : World F) (s : HealthSnapshot F)
      : Type 0 where
    pub temps : Option (List (List F))
    pub of_machine : metrics ≡ ok (s.cpu_pct, s.memory_pct, s.disk_pct)
    pub of_sensors : sensors ≡ ok temps
    pub temperature : s.temp_c ≡ read_cpu_temp_c temps
    pub reached : (s.toss_api_reachable ≡ true) ↔ (ping ≡ replied)
    pub dated : s.collected_at ≡ w.now

  -- The check raised what the machine's figures raised, or it returned its snapshot.
  abbrev pub Checks :
      Ping
      → Result (F × F × F)
      → Result (Option (List (List F)))
      → World F
      → Result (HealthSnapshot F) × World F
      → Type 0
  Checks ping metrics sensors w q =
      ((e : Error) × ((metrics ≡ err e) ⊎ (sensors ≡ err e)) × (q ≡ (err e, w)))
      ⊎ ((s : HealthSnapshot F) × IsReading ping metrics sensors w s
          × (w' : World F) × (q ≡ (ok s, w'))
          × IsChecked ping w s w')

  alert_of-IsChecked :
      (w : World F) (s : HealthSnapshot F) (xs : List (Warning F))
      → check_thresholds s ≡ xs
      → WarnsIf (IsAlarming s) xs
      → (w' : World F) × (alert_of s xs (record w { health = some s }) ≡ (ok s, w'))
        × IsChecked replied w s w'
  alert_of-IsChecked w s [] same (inl (p, y, ys, e)) = let bad : ⊥ = cc e in elim bad [ ]
  alert_of-IsChecked w s [] same (inr (calm, e)) =
      (_, refl, record { latest = refl; alert = inr (calm, refl); untouched = (refl, refl) })
  alert_of-IsChecked w s (x ∷ xs) same (inr (calm, e)) = let bad : ⊥ = cc e in elim bad [ ]
  alert_of-IsChecked w s (x ∷ xs) same (inl (alarming, y, ys, e)) = (
    _,
    refl,
    record {
      latest = refl;
      alert = inl (alarming, ap (λ zs. alert_event w s zs ∷ w.events) (sym same));
      untouched = (refl, refl);
    },
  )

  -- The alert, from the state in which the request left the events.
  kept-IsChecked :
      (w : World F) (s : HealthSnapshot F)
      → (w' : World F) × (alert_of s (check_thresholds s) (record w { health = some s })
          ≡ (ok s, w'))
        × IsChecked replied w s w'
  kept-IsChecked w s = alert_of-IsChecked w s (check_thresholds s) refl (check_thresholds-WarnsIf s)

  collected-Checks :
      (ping : Ping) (metrics : Result (F × F × F)) (sensors : Result (Option (List (List F))))
      (w : World F)
      → Checks ping metrics sensors w
          ((collected ping metrics sensors >>= λ s. alert_of s (check_thresholds s)) w)
  collected-Checks ping (err e) sensors w = inl (e, inl refl, refl)
  collected-Checks ping (ok metrics) (err e) w = inl (e, inr refl, refl)
  collected-Checks replied (ok metrics) (ok temps) w =
      let s = snapshot_of w metrics temps true in
      let (w', runs, c) = kept-IsChecked w s in
      inr (
        s,
        record {
          temps = temps;
          of_machine = refl;
          of_sensors = refl;
          temperature = refl;
          reached = ((λ _. refl), (λ _. refl));
          dated = refl;
        },
        w',
        runs,
        c,
      )
  collected-Checks no_reply (ok metrics) (ok temps) w =
      let s = snapshot_of w metrics temps false in
      let (w', runs, c) = kept-IsChecked w s in
      inr (
        s,
        record {
          temps = temps;
          of_machine = refl;
          of_sensors = refl;
          temperature = refl;
          reached = ((λ p. cc p), (λ p. cc p));
          dated = refl;
        },
        w',
        runs,
        record { latest = c.latest; alert = c.alert; untouched = c.untouched },
      )
  collected-Checks (in_maintenance message) (ok metrics) (ok temps) w =
      let s = snapshot_of w metrics temps false in
      let v : World F = record w { events = with_maintenance (in_maintenance message) w } in
      let (w', runs, c) = kept-IsChecked v s in
      inr (
        s,
        record {
          temps = temps;
          of_machine = refl;
          of_sensors = refl;
          temperature = refl;
          reached = ((λ p. cc p), (λ p. cc p));
          dated = refl;
        },
        w',
        runs,
        record { latest = c.latest; alert = c.alert; untouched = c.untouched },
      )

module _ {F : Type 0} ⦃f : Float F⦄ (m : Machine F) where
  unfoldable pub collect_health_snapshot : Action F (HealthSnapshot F)
  collect_health_snapshot w = collected (m.ping w) (m.metrics w) (m.sensors w) w

  unfoldable pub run_health_check : Action F (HealthSnapshot F)
  run_health_check = collect_health_snapshot >>= λ s. alert_of s (check_thresholds s)

  -- A health check raises the error of psutil and changes nothing, or it returns the snapshot of
  -- what was read and keeps it under health:latest; after the alert of the request, if the exchange
  -- is in maintenance, it publishes one alert with the warnings exactly when a value is over its
  -- threshold or the exchange did not reply, and it leaves the database and the orders alone.
  pub run_health_check-IsChecked :
      (w : World F) → Checks (m.ping w) (m.metrics w) (m.sensors w) w (run_health_check w)
  unfolding run_health_check collect_health_snapshot
  run_health_check-IsChecked w = collected-Checks (m.ping w) (m.metrics w) (m.sensors w) w
