-- ===== src/Supervisor/Services.antt =====
-- The supervisor: which services run, and how a round of its loop changes that.
use endorium_nexus.Maps.{lookup, assign, erase}
use endorium_nexus.Prelude.{
  ltb, if◌then◌else◌, is_empty, Text, codes, text_eq, pos, negsuc, stoi, ℕ, zero, suc, Bool, true,
  false, not, ◌&&◌, ◌||◌, Option, none, some, List, [], ◌∷◌, ◌++◌,
}

pub record ServiceSpec : Type 0 where
  pub id : Text
  pub binary : Text

-- The pid is `none` for -1.
pub record RunningService : Type 0 where
  pub pid : Option ℕ
  pub binary : Text

-- The part of `nexus::core::Config` that the supervisor reads.
pub record Config : Type 0 where
  pub features : List (Text × Bool)
  pub database_url : Text

-- What `nexus::core::service_definitions()` says of a service, as far as the supervisor reads it.
pub record ServiceDefinition : Type 0 where
  pub service_id : Text
  pub binary_name : Text

unfoldable pub make_services : Text → List ServiceDefinition → List ServiceSpec
make_services bin_dir [] = []
make_services bin_dir (definition ∷ definitions) =
    let rest = make_services bin_dir definitions in
    if is_empty definition.binary_name || text_eq definition.service_id (codes "api")
    then rest
    else record {
      id = definition.service_id;
      binary = bin_dir ++ codes "/" ++ definition.binary_name;
    }
      ∷ rest

-- The rows that a query returns, as far as they are read: the text of the first column, or a failure.
pub data PgResult : Type 0 where
  tuples_ok : Text → PgResult
  query_failed : PgResult

-- The system around the supervisor, over a state `S`: PostgreSQL, processes, files and the clock.
-- `connect` says whether the status is CONNECTION_OK; `waitpid` whether the process has ended;
-- `updated_settings` is the configuration that was read, if the file was written since and parses.
pub record System (S : Type 0) : Type 0 where
  pub connect : Text → S → S × Bool
  pub exec : Text → Text → S → S × PgResult
  pub spawn_service : ServiceSpec → S → S × Option ℕ
  pub kill : ℕ → ℕ → S → S
  pub waitpid : ℕ → S → S × Bool
  pub wait_for_end : ℕ → S → S
  pub sleep : ℕ → S → S
  pub updated_settings : S → S × Option Config
  pub export_config_env : Config → S → S

pub record Supervisor : Type 0 where
  pub running : List (Text × RunningService)
  pub blocked_services : List (Text × Bool)

unfoldable pub has : {A : Type 0} → Option A → Bool
has none = false
has (some a) = true

-- A count that is a number above 0; `std::stoi` may throw.
unfoldable pub is_positive_count : PgResult → Bool
is_positive_count query_failed = false
is_positive_count (tuples_ok column) = elim (stoi column) [
  | none ↦ false
  | some count ↦ elim count [ pos n ↦ ltb 0 n | negsuc n ↦ false ]
]

unfoldable pub desired_enabled : Config → Text → Bool
desired_enabled config id = elim (lookup id config.features) [
  | none ↦ false
  | some enabled ↦ enabled
]

unfoldable pub was_blocked : Supervisor → Text → Bool
was_blocked supervisor id = elim (lookup id supervisor.blocked_services) [
  | none ↦ false
  | some blocked ↦ blocked
]

unfoldable pub has_started : Supervisor → Text → Bool
has_started supervisor id = has (lookup id supervisor.running)

unfoldable pub block : Text → Supervisor → Supervisor
block id supervisor =
    if was_blocked supervisor id
    then supervisor
    else record supervisor { blocked_services = assign id true supervisor.blocked_services }

unfoldable pub unblock : Text → Supervisor → Supervisor
unblock id supervisor =
    if was_blocked supervisor id
    then record supervisor { blocked_services = assign id false supervisor.blocked_services }
    else supervisor

unfoldable pub spawned : ServiceSpec → Supervisor → Option ℕ → Supervisor
spawned spec supervisor none = supervisor
spawned spec supervisor (some pid) = record supervisor {
  running = assign spec.id (record { pid = some pid; binary = spec.binary }) supervisor.running;
}

unfoldable pub stopped : ServiceSpec → Supervisor → Supervisor
stopped spec supervisor = record {
  running = erase spec.id supervisor.running;
  blocked_services =
      if was_blocked supervisor spec.id
      then erase spec.id supervisor.blocked_services
      else supervisor.blocked_services;
}

module _ {S : Type 0} (system : System S) where
  -- The decision of `can_start_service`; its reason, which is only logged, is left out.
  unfoldable pub can_start_connected : Text → Text → S → S × Bool
  can_start_connected service_id url state =
      let (zoned, zones) = system.exec url (codes "SELECT COUNT(*) FROM dns_zones") state in
      let (pooled, pools) = system.exec url (codes "SELECT COUNT(*) FROM dhcp_pools") zoned in
      let (listed, authorities) =
        system.exec url (codes "SELECT COUNT(*) FROM pki_authorities") state in
      if text_eq service_id (codes "network")
      then (pooled, is_positive_count zones && is_positive_count pools)
      else if text_eq service_id (codes "directory")
      then (state, true)
      else if text_eq service_id (codes "pki-repo")
      then (listed, is_positive_count authorities)
      else (state, true)

  unfoldable pub can_start_service : Text → Text → S → S × Bool
  can_start_service service_id database_url state =
      let (connected, good) = system.connect database_url state in
      let start = can_start_connected service_id database_url connected in
      if is_empty database_url
      then (state, false)
      else if not good
      then (connected, false)
      else start

  -- The rounds that wait for a service to end, and SIGKILL (9) when there are none left.
  unfoldable pub await_end : ℕ → ℕ → S → S
  await_end zero pid state = system.wait_for_end pid (system.kill pid 9 state)
  await_end (suc attempts) pid state =
      let (after, ended) = system.waitpid pid state in
      let later = await_end attempts pid (system.sleep 100 after) in if ended then after else later

  unfoldable pub stop_service : RunningService → S → S
  stop_service service state = elim service.pid [
    | none ↦ state
    | some pid ↦ await_end 20 pid (system.kill pid 15 state)
  ]

  -- A service that should run and does not.
  unfoldable pub start : Config → ServiceSpec → Supervisor → S → Supervisor × S
  start config spec supervisor state =
      let (asked, can_start) = can_start_service spec.id config.database_url state in
      let (after, pid) = system.spawn_service spec asked in
      if can_start
      then (spawned spec (unblock spec.id supervisor) pid, after)
      else (block spec.id supervisor, asked)

  -- A service that runs and should not.
  unfoldable pub stop : ServiceSpec → RunningService → Supervisor → S → Supervisor × S
  stop spec service supervisor state = (stopped spec supervisor, stop_service service state)

  -- The body of the loop in `reconcile`.
  unfoldable pub reconcile_one : Config → ServiceSpec → Supervisor → S → Supervisor × S
  reconcile_one config spec supervisor state =
      let enabled = desired_enabled config spec.id in
      elim (lookup spec.id supervisor.running) [
        | none ↦ if enabled then start config spec supervisor state else (supervisor, state)
        | some service ↦ if enabled then (supervisor, state) else stop spec service supervisor state
      ]

  unfoldable pub reconcile : Config → List ServiceSpec → Supervisor → S → Supervisor × S
  reconcile config [] supervisor state = (supervisor, state)
  reconcile config (spec ∷ specs) supervisor state =
      let (next, after) = reconcile_one config spec supervisor state in
      reconcile config specs next after

  unfoldable pub stop_all : List (Text × RunningService) → S → S
  stop_all [] state = state
  stop_all ((id, service) ∷ rest) state = stop_all rest (stop_service service state)

  unfoldable pub restart_all : Supervisor → S → Supervisor × S
  restart_all supervisor state =
      (record { running = []; blocked_services = [] }, stop_all supervisor.running state)

  unfoldable pub has_ended : RunningService → S → S × Bool
  has_ended service state = elim service.pid [
    | none ↦ (state, false)
    | some pid ↦ system.waitpid pid state
  ]

  -- The loop over the running services that drops those which have ended.
  unfoldable pub drop_ended : List (Text × RunningService) → S → List (Text × RunningService) × S
  drop_ended [] state = ([], state)
  drop_ended ((id, service) ∷ rest) state =
      let (after, ended) = has_ended service state in
      let (kept, last) = drop_ended rest after in
      if ended then (kept, last) else ((id, service) ∷ kept, last)

  -- The reload of the settings, if there are new ones, and the reconcile.
  unfoldable pub resume :
      List ServiceSpec → Config → Supervisor → S × Option Config → Config × (Supervisor × S)
  resume services config remaining (asked, none) =
      (config, reconcile config services remaining asked)
  resume services config remaining (asked, some updated) =
      let (empty, stopped) = restart_all remaining (system.export_config_env updated asked) in
      (updated, reconcile updated services empty stopped)

  -- One round of the endless loop.
  unfoldable pub round : List ServiceSpec → Config → Supervisor → S → Config × (Supervisor × S)
  round services config supervisor state =
      let (kept, waited) = drop_ended supervisor.running (system.sleep 2000 state) in
      resume services config (record supervisor { running = kept }) (system.updated_settings waited)
