-- ===== src/Supervisor/Changes.antt =====
-- What one service's turn in `reconcile` does to the supervisor's maps.
use endorium_nexus.Maps.{lookup}
use endorium_nexus.Supervisor.Services.{
  ServiceSpec, RunningService, Config, System, Supervisor, desired_enabled, has, has_started,
  can_start_service, block, unblock, spawned, start, stop, stopped, reconcile_one,
}
use endorium_nexus.Prelude.{
  Bool-cases, Option-cases, ℕ, ◌≡◌, ap, inl, inr, true, false, Option, none, some, arith,
}

pub data Change (config : Config) (spec : ServiceSpec) (s : Supervisor) : Supervisor → Type 0 where
  runs_on :
      desired_enabled config spec.id ≡ true → has_started s spec.id ≡ true → Change config spec s s
  stays_off :
      desired_enabled config spec.id ≡ false
      → lookup spec.id s.running ≡ none
      → Change config spec s s
  blocks :
      desired_enabled config spec.id ≡ true
      → lookup spec.id s.running ≡ none
      → Change config spec s (block spec.id s)
  fails :
      desired_enabled config spec.id ≡ true
      → lookup spec.id s.running ≡ none
      → Change config spec s (unblock spec.id s)
  starts :
      desired_enabled config spec.id ≡ true
      → lookup spec.id s.running ≡ none
      → (pid : ℕ) → Change config spec s (spawned spec (unblock spec.id s) (some pid))
  stops : desired_enabled config spec.id ≡ false → Change config spec s (stopped spec s)

module _ {S : Type 0} (system : System S) (config : Config) (spec : ServiceSpec) (s : Supervisor)
    (state : S) where
  start-Change :
      desired_enabled config spec.id ≡ true
      → lookup spec.id s.running ≡ none
      → Change config spec s (start system config spec s state).0
  unfolding start spawned
  start-Change e f =
      let (asked, can_start) = can_start_service system spec.id config.database_url state in
      elim (Bool-cases can_start) [
        | inl can ↦ rw can (spawned_cases (system.spawn_service spec asked).1)
        | inr cannot ↦ rw cannot (blocks e f)
      ]
    where
      spawned_cases : (pid : Option ℕ) → Change config spec s (spawned spec (unblock spec.id s) pid)
      spawned_cases none = fails e f
      spawned_cases (some pid) = starts e f pid

  pub one_off :
      lookup spec.id s.running ≡ none
      → desired_enabled config spec.id ≡ false
      → reconcile_one system config spec s state ≡ (s, state)
  unfolding reconcile_one
  one_off f e = ground (arith, e, f)

  pub one_start :
      lookup spec.id s.running ≡ none
      → desired_enabled config spec.id ≡ true
      → reconcile_one system config spec s state ≡ start system config spec s state
  unfolding reconcile_one
  one_start f e = ground (arith, e, f)

  pub one_on :
      (service : RunningService)
      → lookup spec.id s.running ≡ some service
      → desired_enabled config spec.id ≡ true
      → reconcile_one system config spec s state ≡ (s, state)
  unfolding reconcile_one
  one_on service f e = ground (arith, e, f)

  pub one_stop :
      (service : RunningService)
      → lookup spec.id s.running ≡ some service
      → desired_enabled config spec.id ≡ false
      → reconcile_one system config spec s state ≡ stop system spec service s state
  unfolding reconcile_one
  one_stop service f e = ground (arith, e, f)

  pub reconcile_one-Change : Change config spec s (reconcile_one system config spec s state).0
  unfolding stop has_started has
  reconcile_one-Change = elim (Bool-cases (desired_enabled config spec.id)) [
    | inl e ↦ elim (Option-cases (lookup spec.id s.running)) [
      | inl f ↦ rw (one_start f e) (start-Change e f)
      | inr (service, f) ↦ rw (one_on service f e) (runs_on e (ap has f))
    ]
    | inr e ↦ elim (Option-cases (lookup spec.id s.running)) [
      | inl f ↦ rw (one_off f e) (stays_off e f)
      | inr (service, f) ↦ rw (one_stop service f e) (stops e)
    ]
  ]
