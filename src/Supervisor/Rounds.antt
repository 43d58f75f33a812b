-- ===== src/Supervisor/Rounds.antt =====
-- Every state that the supervisor's loop reaches.
use endorium_nexus.Maps.{lookup}
use endorium_nexus.Supervisor.Services.{
  ServiceSpec, RunningService, Config, System, Supervisor, desired_enabled, was_blocked, reconcile,
  resume, restart_all, stop_all, drop_ended, round,
}
use endorium_nexus.Supervisor.Invariants.{
  IsWanted, IsExclusive, reconcile_off, reconcile-IsExclusive,
}
use endorium_nexus.Supervisor.Children.{Children, NoneNew, stop_all-NoneNew}
use endorium_nexus.Supervisor.Tracking.{IsTracked, HasNoChild, off-HasNoChild, reconcile-IsTracked}
use endorium_nexus.Prelude.{
  Text, ℕ, ◌≡◌, refl, sym, ◌∙◌, inl, true, false, Option, none, some, List, [],
}
use endorium_nexus.Supervisor.Endings.{
  drop_ended-none, drop_ended-NoneNew, drop_ended-Entry, stop_all-gone,
}

abbrev pub idle : Supervisor
idle = record { running = []; blocked_services = [] }

module _ {S : Type 0} (system : System S) (children : Children system) where
  -- The states of the loop: behind the first reconcile, which is made without children, behind
  -- each round, and with some children gone at any time in between.
  pub data Reachable (services : List ServiceSpec) : Config → Supervisor → S → Type 0 where
    started :
        (config : Config) (state : S)
        → ((id : Text) → HasNoChild system children state id)
        → Reachable services config
            (reconcile system config services idle state).0
            (reconcile system config services idle state).1
    passes :
        (config : Config) (s : Supervisor) (state later : S)
        → Reachable services config s state
        → NoneNew system children state later
        → Reachable services config s later
    after_round :
        (config : Config) (s : Supervisor) (state : S)
        → Reachable services config s state
        → Reachable services
            (round system services config s state).0
            (round system services config s state).1.0
            (round system services config s state).1.1

  -- The invariants of the maps and of the children.
  abbrev Keeps : Config → Supervisor → S → Type 0
  Keeps config s state = IsWanted config s × IsExclusive s × IsTracked system children s state

  reconciled :
      (services : List ServiceSpec) (config : Config) (s : Supervisor) (state : S)
      → Keeps config s state
      → Keeps config
          (reconcile system config services s state).0
          (reconcile system config services s state).1
  reconciled services config s state (wanted, exclusive, tracked) = (
    λ id h. reconcile_off system config services s state id h (inl (wanted id h)),
    reconcile-IsExclusive system config services s state exclusive,
    reconcile-IsTracked system children config services s state tracked,
  )

  idle-Keeps :
      (config : Config) (state : S)
      → ((pid : ℕ) (id : Text) → children.is_child state pid id ≡ true → true ≡ false)
      → Keeps config idle state
  unfolding lookup
  idle-Keeps config state none_left =
      (λ id h. refl, λ id h. refl, λ pid id h. let wrong = none_left pid id h in cc)

  resumed :
      (services : List ServiceSpec) (config : Config) (s : Supervisor)
      (settings : S × Option Config)
      → Keeps config s settings.0
      → Keeps
          (resume system services config s settings).0
          (resume system services config s settings).1.0
          (resume system services config s settings).1.1
  unfolding resume restart_all
  resumed services config s (asked, none) h = reconciled services config s asked h
  resumed services config s (asked, some updated) (_, _, tracked) =
      let exported = system.export_config_env updated asked in
      reconciled services updated idle (stop_all system s.running exported) (
        idle-Keeps updated _ λ pid id h. stop_all-gone system children pid id s.running exported h (
          tracked pid id (
            children.export_config_env_starts_none updated asked pid id
              (stop_all-NoneNew system children s.running exported pid id h))))

  blocked_alike :
      (s : Supervisor) (m : List (Text × RunningService)) (id : Text)
      → was_blocked (record s { running = m }) id ≡ was_blocked s id
  unfolding was_blocked
  blocked_alike s m id = refl

  dropped :
      (config : Config) (s : Supervisor) (state : S)
      → Keeps config s state
      → Keeps config
          (record s { running = (drop_ended system s.running state).0 })
          (drop_ended system s.running state).1
  dropped config s state (wanted, exclusive, tracked) = (
    λ id h. drop_ended-none system id s.running state (wanted id h),
    λ id h.
        drop_ended-none system id s.running state (exclusive id (sym (blocked_alike s _ id) ∙ h)),
    λ pid id h.
        drop_ended-Entry system children pid id s.running state h
          (tracked pid id (drop_ended-NoneNew system children s.running state pid id h)),
  )

  passed :
      (config : Config) (s : Supervisor) (state later : S)
      → Keeps config s state
      → NoneNew system children state later
      → Keeps config s later
  passed config s state later (wanted, exclusive, tracked) none_new =
      (wanted, exclusive, λ pid id h. tracked pid id (none_new pid id h))

  Reachable-Keeps :
      (services : List ServiceSpec) (config : Config) (s : Supervisor) (state : S)
      → Reachable services config s state
      → Keeps config s state
  unfolding round
  Reachable-Keeps services _ _ _ (started config state childless) =
      reconciled services config idle state
        (idle-Keeps config state λ pid id h. let none_there = childless id pid in cc)
  Reachable-Keeps services _ _ _ (passes config s state later before none_new) =
      passed config s state later (Reachable-Keeps services config s state before) none_new
  Reachable-Keeps services _ _ _ (after_round config s state before) =
      let slept = system.sleep 2000 state in
      let (kept, waited) = drop_ended system s.running slept in
      resumed services config (record s { running = kept }) (system.updated_settings waited)
        (passed config _ waited _
          (dropped config s slept (
            passed config s state slept (Reachable-Keeps services config s state before)
              (children.sleep_starts_none 2000 state)))
          (children.updated_settings_starts_none waited))

  -- The service has neither an entry nor a child process.
  abbrev pub IsOff : Supervisor → S → Text → Type 0
  IsOff s state id = (lookup id s.running ≡ none) × HasNoChild system children state id

  -- In every state of the loop, with processes that end at any time and settings that change at
  -- any time, every child process of the supervisor is that of its service's entry among the
  -- running services, and a service that the configuration disables, or that counts as blocked, has
  -- neither an entry nor a child process. The loop starts without child processes, and of the
  -- system it is relied on what `Children` says.
  pub Reachable-IsOff :
      (services : List ServiceSpec) (config : Config) (s : Supervisor) (state : S)
      → Reachable services config s state
      → IsTracked system children s state
        × ((id : Text) → desired_enabled config id ≡ false → IsOff s state id)
        × ((id : Text) → was_blocked s id ≡ true → IsOff s state id)
  Reachable-IsOff services config s state reached =
      let (wanted, exclusive, tracked) = Reachable-Keeps services config s state reached in
      (
        tracked,
        λ id h. (wanted id h, off-HasNoChild system children s state id tracked (wanted id h)),
        λ id h.
            (exclusive id h, off-HasNoChild system children s state id tracked (exclusive id h)),
      )
