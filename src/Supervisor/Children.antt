-- ===== src/Supervisor/Children.antt =====
-- The child processes of the supervisor: what it relies on of the system that starts and ends them,
-- and how the operations that stop a service change them.
use endorium_nexus.Supervisor.Services.{
  ServiceSpec, RunningService, Config, System, can_start_connected, can_start_service, await_end,
  stop_service, stop_all, has_ended,
}
use endorium_nexus.Prelude.{
  Bool-cases, Option-cases, is_empty, Text, codes, text_eq, ℕ, zero, suc, ◌≡◌, ◌⊎◌, inl, inr, Bool,
  true, false, not, none, some, List, [], ◌∷◌,
}

-- Which processes are children of the supervisor that have not been waited for, each with the id of
-- the service that it was started for. Only fork starts one, and its pid is returned. waitpid that
-- returns a pid has reaped that child, at once or, without WNOHANG, when it ends. Any call may find
-- that children are gone.
pub record Children {S : Type 0} (system : System S) : Type 0 where
  pub is_child : S → ℕ → Text → Bool
  pub connect_starts_none :
      (url : Text) (state : S) (pid : ℕ) (id : Text)
      → is_child (system.connect url state).0 pid id ≡ true
      → is_child state pid id ≡ true
  pub exec_starts_none :
      (url sql : Text) (state : S) (pid : ℕ) (id : Text)
      → is_child (system.exec url sql state).0 pid id ≡ true
      → is_child state pid id ≡ true
  pub kill_starts_none :
      (target signal : ℕ) (state : S) (pid : ℕ) (id : Text)
      → is_child (system.kill target signal state) pid id ≡ true
      → is_child state pid id ≡ true
  pub waitpid_starts_none :
      (target : ℕ) (state : S) (pid : ℕ) (id : Text)
      → is_child (system.waitpid target state).0 pid id ≡ true
      → is_child state pid id ≡ true
  pub wait_for_end_starts_none :
      (target : ℕ) (state : S) (pid : ℕ) (id : Text)
      → is_child (system.wait_for_end target state) pid id ≡ true
      → is_child state pid id ≡ true
  pub sleep_starts_none :
      (milliseconds : ℕ) (state : S) (pid : ℕ) (id : Text)
      → is_child (system.sleep milliseconds state) pid id ≡ true
      → is_child state pid id ≡ true
  pub updated_settings_starts_none :
      (state : S) (pid : ℕ) (id : Text)
      → is_child (system.updated_settings state).0 pid id ≡ true
      → is_child state pid id ≡ true
  pub export_config_env_starts_none :
      (config : Config) (state : S) (pid : ℕ) (id : Text)
      → is_child (system.export_config_env config state) pid id ≡ true
      → is_child state pid id ≡ true
  pub spawn_service_fails :
      (spec : ServiceSpec) (state : S)
      → (system.spawn_service spec state).1 ≡ none
      → (pid : ℕ) (id : Text) → is_child (system.spawn_service spec state).0 pid id ≡ true
      → is_child state pid id ≡ true
  pub spawn_service_starts :
      (spec : ServiceSpec) (state : S) (new : ℕ)
      → (system.spawn_service spec state).1 ≡ some new
      → (pid : ℕ) (id : Text) → is_child (system.spawn_service spec state).0 pid id ≡ true
      → (is_child state pid id ≡ true) ⊎ ((pid ≡ new) × (id ≡ spec.id))
  pub waitpid_reaps :
      (pid : ℕ) (state : S)
      → (system.waitpid pid state).1 ≡ true
      → (id : Text) → is_child (system.waitpid pid state).0 pid id ≡ false
  pub wait_for_end_reaps :
      (pid : ℕ) (state : S) (id : Text) → is_child (system.wait_for_end pid state) pid id ≡ false

module _ {S : Type 0} (system : System S) (children : Children system) where
  -- No child is new.
  abbrev pub NoneNew : S → S → Type 0
  NoneNew before after =
      (pid : ℕ) (id : Text)
      → children.is_child after pid id ≡ true
      → children.is_child before pid id ≡ true

  can_start_connected-NoneNew :
      (service_id url : Text) (state : S)
      → NoneNew state (can_start_connected system service_id url state).0
  unfolding can_start_connected
  can_start_connected-NoneNew service_id url state =
      elim (Bool-cases (text_eq service_id (codes "network"))) [
        | inl e ↦ rw e (λ pid id h.
            children.exec_starts_none _ _ state pid id (children.exec_starts_none _ _ _ pid id h))
        | inr e ↦ elim (Bool-cases (text_eq service_id (codes "directory"))) [
          | inl f ↦ rw (e, f) (λ pid id h. h)
          | inr f ↦ elim (Bool-cases (text_eq service_id (codes "pki-repo"))) [
            | inl g ↦ rw (e, f, g) (children.exec_starts_none _ _ state)
            | inr g ↦ rw (e, f, g) (λ pid id h. h)
          ]
        ]
      ]

  pub can_start_service-NoneNew :
      (service_id database_url : Text) (state : S)
      → NoneNew state (can_start_service system service_id database_url state).0
  unfolding can_start_service
  can_start_service-NoneNew service_id url state =
      let connected = children.connect_starts_none url state in
      elim (Bool-cases (is_empty url)) [
        | inl e ↦ rw e (λ pid id h. h)
        | inr e ↦ elim (Bool-cases (not (system.connect url state).1)) [
          | inl f ↦ rw (e, f) connected
          | inr f ↦
              rw (e, f)
                (λ pid id h. connected pid id (
                  can_start_connected-NoneNew service_id url (system.connect url state).0 pid id h))
        ]
      ]

  module _ (attempts pid : ℕ) (state : S) where
    ended_first :
        (system.waitpid pid state).1 ≡ true
        → await_end system (suc attempts) pid state ≡ (system.waitpid pid state).0
    unfolding await_end
    ended_first e = rw e

    waits_on :
        (system.waitpid pid state).1 ≡ false
        → await_end system (suc attempts) pid state
          ≡ await_end system attempts pid (system.sleep 100 (system.waitpid pid state).0)
    unfolding await_end
    waits_on e = rw e

  await_end-NoneNew :
      (attempts pid : ℕ) (state : S) → NoneNew state (await_end system attempts pid state)
  unfolding await_end
  await_end-NoneNew zero pid state p id h =
      children.kill_starts_none pid 9 state p id (children.wait_for_end_starts_none pid _ p id h)
  await_end-NoneNew (suc attempts) pid state p id h =
      children.waitpid_starts_none pid state p id (elim (Bool-cases (system.waitpid pid state).1) [
        | inl e ↦ rw (ended_first attempts pid state e) at h
        | inr e ↦
            children.sleep_starts_none 100 _ p id
              (await_end-NoneNew attempts pid _ p id (rw (waits_on attempts pid state e) at h))
      ])

  -- The child that is waited for is gone at the end, whether it ends by itself or not.
  await_end-gone :
      (attempts pid : ℕ) (state : S) (id : Text)
      → children.is_child (await_end system attempts pid state) pid id ≡ false
  unfolding await_end
  await_end-gone zero pid state id = children.wait_for_end_reaps pid _ id
  await_end-gone (suc attempts) pid state id = elim (Bool-cases (system.waitpid pid state).1) [
    | inl e ↦ rw (ended_first attempts pid state e) (children.waitpid_reaps pid state e id)
    | inr e ↦ rw (waits_on attempts pid state e) (await_end-gone attempts pid _ id)
  ]

  pub stop_service-NoneNew :
      (service : RunningService) (state : S) → NoneNew state (stop_service system service state)
  unfolding stop_service
  stop_service-NoneNew service state p id = elim (Option-cases service.pid) [
    | inl e ↦ rw e (λ h. h)
    | inr (pid, e) ↦
        rw e (λ h. children.kill_starts_none pid 15 state p id (await_end-NoneNew 20 pid _ p id h))
  ]

  pub stop_service-gone :
      (service : RunningService) (state : S) (pid : ℕ) (id : Text)
      → service.pid ≡ some pid
      → children.is_child (stop_service system service state) pid id ≡ false
  unfolding stop_service
  stop_service-gone service state pid id e = rw e (await_end-gone 20 pid _ id)

  pub stop_all-NoneNew :
      (m : List (Text × RunningService)) (state : S) → NoneNew state (stop_all system m state)
  unfolding stop_all
  stop_all-NoneNew [] state p id h = h
  stop_all-NoneNew ((key, service) ∷ rest) state p id h =
      stop_service-NoneNew service state p id (stop_all-NoneNew rest _ p id h)

  pub has_ended-NoneNew :
      (service : RunningService) (state : S) → NoneNew state (has_ended system service state).0
  unfolding has_ended
  has_ended-NoneNew service state p id = elim (Option-cases service.pid) [
    | inl e ↦ rw e (λ h. h)
    | inr (pid, e) ↦ rw e (children.waitpid_starts_none pid state p id)
  ]

  pub has_ended-gone :
      (service : RunningService) (state : S) (pid : ℕ) (id : Text)
      → service.pid ≡ some pid
      → (has_ended system service state).1 ≡ true
      → children.is_child (has_ended system service state).0 pid id ≡ false
  unfolding has_ended
  has_ended-gone service state pid id e = rw e (λ ended. children.waitpid_reaps pid state ended id)
