-- ===== src/Startup/Calls.antt =====
-- What the process does while it starts (main.go and the init functions of the packages): the calls to
-- the file system, the WASM compiler and the manager of controller-runtime, which are a parameter.
use discoblock.Base.{ℕ, String, Bool, List}
use discoblock.Kube.Exec.{Result, Exec}

-- an os.DirEntry
pub record Entry : Type 0 where
  pub name : String
  pub is_dir : Bool

-- the flags that main reads, with the constants beside them
pub record ManagerOptions : Type 0 where
  pub metrics_bind_address : String
  pub port : ℕ
  pub health_probe_bind_address : String
  pub leader_election : Bool
  pub leader_election_id : String

pub data Kind : Type 0 where
  job node disk_config pvc : Kind

pub data EventFilter : Type 0 where
  no_filter job_event_filter disk_config_event_filter pvc_event_filter : EventFilter

-- what SetupWithManager hands to the builder of a controller
pub record Controller : Type 0 where
  pub kind : Kind
  pub filter : EventFilter
  pub max_concurrent_reconciles : ℕ

pub data Boot : Type 0 where
  read_dir stat read_file compile : String → Boot
  register_metric add_to_scheme : String → Boot
  new_manager : ManagerOptions → Boot
  set_up_controller : Controller → Boot
  index_field : String → Boot
  set_up_webhook : Boot
  register_mutator : String → Bool → Boot
  add_healthz_check add_readyz_check : String → Boot
  start_scheduler : Bool → Boot
  start_manager : Boot

-- What ends first after the start of the manager: the manager, or the command of the scheduler.
pub data Ended : Type 0 where
  manager_ended scheduler_ended : Result String (Unit {0}) → Ended

-- `M` is a compiled module.
pub record System (M : Type 0) : Type 0 where
  pub read_dir : List Boot → String → Result String (List Entry)
  pub stat : List Boot → String → Result String (Unit {0})
  pub read_file : List Boot → String → Result String String
  -- wasmer.NewModule on the content of a file
  pub compile : List Boot → String → Result String M
  pub register_metric : List Boot → String → Result String (Unit {0})
  pub add_to_scheme : List Boot → String → Result String (Unit {0})
  -- os.Getenv
  pub getenv : String → String
  pub metrics_addr : String
  pub probe_addr : String
  pub enable_leader_election : Bool
  pub new_manager : List Boot → ManagerOptions → Result String (Unit {0})
  pub set_up_controller : List Boot → Controller → Result String (Unit {0})
  pub index_field : List Boot → String → Result String (Unit {0})
  pub set_up_webhook : List Boot → Result String (Unit {0})
  pub add_healthz_check : List Boot → String → Result String (Unit {0})
  pub add_readyz_check : List Boot → String → Result String (Unit {0})
  pub ended : List Boot → Ended

-- A start-up ends early with the status of os.Exit.
abbrev pub Start : Type 0 → Type 0
Start A = Exec Boot ℕ A
