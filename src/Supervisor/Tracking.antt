-- ===== src/Supervisor/Tracking.antt =====
-- Every child process of the supervisor is that of an entry among the running services, and a
-- reconcile keeps this.
use endorium_nexus.Maps.{lookup, lookup-assign, lookup-erase-other}
use endorium_nexus.Supervisor.Services.{
  ServiceSpec, RunningService, Config, System, Supervisor, desired_enabled, can_start_service,
  unblock, spawned, stopped, start, stop, reconcile_one, reconcile,
}
use endorium_nexus.Supervisor.Changes.{one_off, one_start, one_on, one_stop}
use endorium_nexus.Supervisor.Invariants.{
  running-block, running-unblock, running-spawned, reconcile_off,
}
use endorium_nexus.Supervisor.Children.{
  Children, can_start_service-NoneNew, stop_service-NoneNew, stop_service-gone,
}
use endorium_nexus.Prelude.{
  Bool-cases, Option-cases, any, Text, text_eq, text_eq→eq, ℕ, ◌≡◌, refl, ap, ◌∙◌, ◌⊎◌, inl, inr,
  true, false, Option, none, some, List, [], ◌∷◌,
}

-- The service has an entry with that pid.
abbrev pub Entry : List (Text × RunningService) → Text → ℕ → Type 0
Entry m id pid =
    (service : RunningService) × (lookup id m ≡ some service) × (service.pid ≡ some pid)

pub Entry-cong :
    (m n : List (Text × RunningService)) (id : Text) (pid : ℕ)
    → lookup id m ≡ lookup id n
    → Entry n id pid
    → Entry m id pid
Entry-cong m n id pid h (service, e, f) = (service, h ∙ e, f)

-- The entry that is found has the pid.
pub Entry-pid :
    (m : List (Text × RunningService)) (id : Text) (pid : ℕ) (found : RunningService)
    → lookup id m ≡ some found
    → Entry m id pid
    → found.pid ≡ some pid
Entry-pid m id pid found h (service, e, f) = let same : found ≡ service = cc in rw same f

Entry-absent :
    (m : List (Text × RunningService)) (id : Text) (pid : ℕ)
    → lookup id m ≡ none
    → Entry m id pid
    → true ≡ false
Entry-absent m id pid h (service, e, f) = cc

module _ {S : Type 0} (system : System S) (children : Children system) where
  abbrev pub IsTracked : Supervisor → S → Type 0
  IsTracked s state =
      (pid : ℕ) (id : Text) → children.is_child state pid id ≡ true → Entry s.running id pid

  -- No child was started for the service.
  abbrev pub HasNoChild : S → Text → Type 0
  HasNoChild state id = (pid : ℕ) → children.is_child state pid id ≡ false

  pub off-HasNoChild :
      (s : Supervisor) (state : S) (id : Text)
      → IsTracked s state
      → lookup id s.running ≡ none
      → HasNoChild state id
  off-HasNoChild s state id tracked off pid = elim (Bool-cases (children.is_child state pid id)) [
    | inl h ↦ let wrong = Entry-absent s.running id pid off (tracked pid id h) in cc
    | inr e ↦ e
  ]

  module _ (config : Config) (spec : ServiceSpec) (s : Supervisor) (state : S)
      (tracked : IsTracked s state) where
    start-IsTracked :
        lookup spec.id s.running ≡ none
        → IsTracked (start system config spec s state).0 (start system config spec s state).1
    unfolding start spawned
    start-IsTracked off =
        let (asked, can_start) = can_start_service system spec.id config.database_url state in
        elim (Bool-cases can_start) [
          | inl can ↦ rw can (spawned_cases (system.spawn_service spec asked).1 refl)
          | inr cannot ↦ rw cannot (λ pid id h.
              Entry-cong _ s.running id pid (ap (lookup id) (running-block spec.id s))
                (before pid id h))
        ]
      where
        before :
            (pid : ℕ) (id : Text)
            → children.is_child
                (can_start_service system spec.id config.database_url state).0
                pid
                id
              ≡ true
            → Entry s.running id pid
        before pid id h =
            tracked pid id
              (can_start_service-NoneNew system children spec.id config.database_url state pid id h)

        among_others :
            (new pid : ℕ) (id : Text)
            → Entry s.running id pid
            → Entry (spawned spec (unblock spec.id s) (some new)).running id pid
        among_others new pid id entry = elim (Bool-cases (text_eq id spec.id)) [
          | inl same ↦
              let here = ap (λ i. lookup i s.running) (text_eq→eq id spec.id same) ∙ off in
              let wrong = Entry-absent s.running id pid here entry in cc
          | inr other ↦
              Entry-cong _ s.running id pid (running-spawned config spec s id new other) entry
        ]

        spawned_cases :
            (m : Option ℕ)
            → (system.spawn_service spec
                (can_start_service system spec.id config.database_url state).0).1
              ≡ m
            → IsTracked
                (spawned spec (unblock spec.id s) m)
                (system.spawn_service spec
                  (can_start_service system spec.id config.database_url state).0).0
        spawned_cases none e pid id h =
            Entry-cong _ s.running id pid (ap (lookup id) (running-unblock spec.id s)) (
              before pid id (
                children.spawn_service_fails spec
                  (can_start_service system spec.id config.database_url state).0 e pid id h))
        spawned_cases (some new) e pid id h =
            elim (children.spawn_service_starts spec
              (can_start_service system spec.id config.database_url state).0 new e pid id h) [
                | inl old ↦ among_others new pid id (before pid id old)
                | inr (same_pid, same_id) ↦
                    rw (same_pid, same_id)
                      (
                        record { pid = some new; binary = spec.binary },
                        lookup-assign spec.id _ (unblock spec.id s).running,
                        refl,
                      )
              ]

    stop-IsTracked :
        (service : RunningService)
        → lookup spec.id s.running ≡ some service
        → IsTracked (stop system spec service s state).0 (stop system spec service s state).1
    unfolding stop stopped
    stop-IsTracked service on pid id h =
        let entry = tracked pid id (stop_service-NoneNew system children service state pid id h) in
        elim (Bool-cases (text_eq id spec.id)) [
          | inl same ↦
              let found = ap (λ i. lookup i s.running) (text_eq→eq id spec.id same) ∙ on in
              let its_pid = Entry-pid s.running id pid service found entry in
              let gone = stop_service-gone system children service state pid id its_pid in cc
          | inr other ↦
              Entry-cong _ s.running id pid (lookup-erase-other spec.id id s.running other) entry
        ]

    reconcile_one-IsTracked :
        IsTracked
          (reconcile_one system config spec s state).0
          (reconcile_one system config spec s state).1
    reconcile_one-IsTracked = elim (Bool-cases (desired_enabled config spec.id)) [
      | inl e ↦ elim (Option-cases (lookup spec.id s.running)) [
        | inl f ↦ rw (one_start system config spec s state f e) (start-IsTracked f)
        | inr (service, f) ↦ rw (one_on system config spec s state service f e) tracked
      ]
      | inr e ↦ elim (Option-cases (lookup spec.id s.running)) [
        | inl f ↦ rw (one_off system config spec s state f e) tracked
        | inr (service, f) ↦
            rw (one_stop system config spec s state service f e) (stop-IsTracked service f)
      ]
    ]

  pub reconcile-IsTracked :
      (config : Config) (specs : List ServiceSpec) (s : Supervisor) (state : S)
      → IsTracked s state
      → IsTracked
          (reconcile system config specs s state).0
          (reconcile system config specs s state).1
  unfolding reconcile
  reconcile-IsTracked config [] s state h = h
  reconcile-IsTracked config (spec ∷ specs) s state h =
      let (next, after) = reconcile_one system config spec s state in
      reconcile-IsTracked config specs next after (reconcile_one-IsTracked config spec s state h)

  -- If the children before a reconcile are those of entries, then behind it a service that the
  -- configuration disables, and that had no entry or is in the list of services, has no entry and no
  -- child process. Of the system it is relied on what `Children` says.
  pub reconcile-HasNoChild :
      (config : Config) (specs : List ServiceSpec) (s : Supervisor) (state : S) (id : Text)
      → IsTracked s state
      → desired_enabled config id ≡ false
      → (lookup id s.running ≡ none) ⊎ (any (λ spec. text_eq id spec.id) specs ≡ true)
      → (lookup id (reconcile system config specs s state).0.running ≡ none)
        × HasNoChild (reconcile system config specs s state).1 id
  reconcile-HasNoChild config specs s state id tracked disabled p =
      let off = reconcile_off system config specs s state id disabled p in
      let (next, after) = reconcile system config specs s state in
      (off, off-HasNoChild next after id (reconcile-IsTracked config specs s state tracked) off)
