-- ===== src/Supervisor/Runs.antt =====
-- Concrete runs of the supervisor, and its theorems at concrete inputs.
use endorium_nexus.Maps.{lookup, assign}
use endorium_nexus.Supervisor.Services.{
  ServiceSpec, Config, System, Supervisor, tuples_ok, desired_enabled, was_blocked, has_started,
  has, is_positive_count, can_start_connected, can_start_service, unblock, spawned, start,
  reconcile_one, reconcile, round,
}
use endorium_nexus.Supervisor.Children.{Children}
use endorium_nexus.Supervisor.Tracking.{IsTracked, HasNoChild, reconcile-HasNoChild}
use endorium_nexus.Supervisor.Rounds.{idle, started, after_round, IsOff, Reachable-IsOff}
use endorium_nexus.Prelude.{
  ◌==◌, ==_iff, Bool-cases, length, any, keep, Text, codes, text_eq, text_eq→eq, is_digit,
  decimal_value, unsigned_value, signed_value, stoi, ℕ, ◌≡◌, refl, sym, ◌∙◌, ◌⊎◌, inl, inr, Bool,
  true, false, not, ◌&&◌, none, some, List, [], ◌∷◌, arith,
}

-- A machine whose state lists its child processes, with three zones, pools and authorities. Each
-- process that is asked for has ended, and the settings never change.
abbrev Processes : Type 0
Processes = List (ℕ × Text)

abbrev without : ℕ → Processes → Processes
without pid processes = keep (λ child. not (child.0 == pid)) processes

abbrev system : System Processes
system = record {
  connect = λ url processes. (processes, true);
  exec = λ url sql processes. (processes, tuples_ok (codes "3"));
  spawn_service =
      λ spec processes. ((length processes, spec.id) ∷ processes, some (length processes));
  kill = λ pid signal processes. processes;
  waitpid = λ pid processes. (without pid processes, true);
  wait_for_end = without;
  sleep = λ milliseconds processes. processes;
  updated_settings = λ processes. (processes, none);
  export_config_env = λ config processes. processes;
}

abbrev is_process : Processes → ℕ → Text → Bool
is_process processes pid id =
    any (λ (child : ℕ × Text). child.0 == pid && text_eq id child.1) processes

without_starts_none :
    (target : ℕ) (processes : Processes) (pid : ℕ) (id : Text)
    → is_process (without target processes) pid id ≡ true
    → is_process processes pid id ≡ true
unfolding any keep
without_starts_none target [] pid id h = h
without_starts_none target (child ∷ processes) pid id h =
    ground (arith, h, without_starts_none target processes pid id)

without_reaps :
    (pid : ℕ) (processes : Processes) (id : Text)
    → is_process (without pid processes) pid id ≡ false
unfolding any keep
without_reaps pid [] id = refl
without_reaps pid (child ∷ processes) id = ground (arith, without_reaps pid processes id)

starts_one :
    (spec : ServiceSpec) (processes : Processes) (new : ℕ)
    → some (length processes) ≡ some new
    → (pid : ℕ) (id : Text) → is_process ((length processes, spec.id) ∷ processes) pid id ≡ true
    → (is_process processes pid id ≡ true) ⊎ ((pid ≡ new) × (id ≡ spec.id))
unfolding any
starts_one spec processes new e pid id h =
    elim (Bool-cases (length processes == pid && text_eq id spec.id)) [
      | inl its ↦
          let same : length processes ≡ new = cc in
          inr (
            sym ((==_iff (length processes) pid).0 (ground (arith, its))) ∙ same,
            text_eq→eq id spec.id (ground (arith, its)),
          )
      | inr other ↦ inl (ground (arith, h, other))
    ]

never_fails :
    (spec : ServiceSpec) (processes : Processes)
    → some (length processes) ≡ none
    → (pid : ℕ) (id : Text) → is_process ((length processes, spec.id) ∷ processes) pid id ≡ true
    → is_process processes pid id ≡ true
never_fails spec processes e = cc

abbrev children : Children system
children = record {
  is_child = is_process;
  connect_starts_none = λ url state pid id h. h;
  exec_starts_none = λ url sql state pid id h. h;
  kill_starts_none = λ target signal state pid id h. h;
  waitpid_starts_none = without_starts_none;
  wait_for_end_starts_none = without_starts_none;
  sleep_starts_none = λ milliseconds state pid id h. h;
  updated_settings_starts_none = λ state pid id h. h;
  export_config_env_starts_none = λ config state pid id h. h;
  spawn_service_fails = never_fails;
  spawn_service_starts = starts_one;
  waitpid_reaps = λ pid state e. without_reaps pid state;
  wait_for_end_reaps = without_reaps;
}

abbrev network : ServiceSpec
network = record { id = codes "network"; binary = codes "/opt/nexus-network" }

abbrev directory : ServiceSpec
directory = record { id = codes "directory"; binary = codes "/opt/nexus-directory" }

abbrev config : Config
config = record {
  features = (codes "directory", false) ∷ (codes "network", true) ∷ [];
  database_url = codes "postgresql://db";
}

abbrev specs : List ServiceSpec
specs = directory ∷ network ∷ []

-- The enabled service starts.
starts_network : has_started (reconcile system config specs idle []).0 (codes "network") ≡ true
unfolding reconcile reconcile_one start can_start_service can_start_connected is_positive_count stoi
    signed_value unsigned_value decimal_value is_digit spawned unblock was_blocked desired_enabled
    has_started has lookup assign text_eq
starts_network = refl

directory_off : desired_enabled config (codes "directory") ≡ false
unfolding desired_enabled lookup text_eq
directory_off = refl

directory_listed : any (λ (spec : ServiceSpec). text_eq (codes "directory") spec.id) specs ≡ true
unfolding any text_eq
directory_listed = refl

childless : (id : Text) → HasNoChild system children [] id
unfolding any
childless id pid = refl

idle-IsTracked : IsTracked system children idle []
unfolding any
idle-IsTracked pid id h = cc

reconcile-HasNoChild_example :
    (lookup (codes "directory") (reconcile system config specs idle []).0.running ≡ none)
    × HasNoChild system children (reconcile system config specs idle []).1 (codes "directory")
reconcile-HasNoChild_example =
    reconcile-HasNoChild system children config specs idle [] (codes "directory") idle-IsTracked
      directory_off (inr directory_listed)

abbrev first : Supervisor × Processes
first = reconcile system config specs idle []

abbrev second : Config × (Supervisor × Processes)
second = round system specs config first.0 first.1

-- The network service has started, ended, and been started again.
Reachable-IsOff_example :
    IsTracked system children second.1.0 second.1.1
    × ((id : Text)
        → desired_enabled second.0 id ≡ false
        → IsOff system children second.1.0 second.1.1 id)
    × ((id : Text)
        → was_blocked second.1.0 id ≡ true
        → IsOff system children second.1.0 second.1.1 id)
Reachable-IsOff_example =
    Reachable-IsOff system children specs second.0 second.1.0 second.1.1
      (after_round config first.0 first.1 (started config [] childless))
