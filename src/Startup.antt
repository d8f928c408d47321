-- ===== src/Startup.antt =====
-- main.go: the process from the init functions of the packages to the end of the manager, with the
-- SetupWithManager functions of the controllers and of the webhook and schedulers/scheduler.go.
-- Startup/Load has the init functions and Startup/Settings what is read from the environment.
pub mod Calls
pub mod Load
pub mod Settings
pub mod Requires
pub mod Order
pub mod Loaded
use discoblock.Base.{ℕ, String, Bool, Option, none, some, List, [], ◌∷◌, Map}
use discoblock.Kube.Exec.{Result, ok, err, pure, return, crash, call, catch, attempt, ◌>>=◌, ◌>>◌}
use discoblock.Startup.Calls.{
  Kind, EventFilter, Controller, ManagerOptions, Boot, Ended, manager_ended, scheduler_ended,
  System, Start,
}
use discoblock.Startup.Load.{
  exit, load_drivers, load_certificates, register_metrics, register_schemes,
}
use discoblock.Startup.Settings.{parse_bool_env, provisioners, init_disk_config_webhook_deps}

-- controllerID
abbrev pub controller_id : String
controller_id = "49ccccaf.discoblocks.ondat.io"

-- webhookport
abbrev pub webhook_port : ℕ
webhook_port = 9443

-- what the SetupWithManager functions complete
abbrev pub job_controller : Controller
job_controller = record {
  kind = Kind.job;
  filter = EventFilter.job_event_filter;
  max_concurrent_reconciles = 1;
}

abbrev pub node_controller : Controller
node_controller = record {
  kind = Kind.node;
  filter = EventFilter.no_filter;
  max_concurrent_reconciles = 1;
}

abbrev pub disk_config_controller : Controller
disk_config_controller = record {
  kind = Kind.disk_config;
  filter = EventFilter.disk_config_event_filter;
  max_concurrent_reconciles = 1;
}

abbrev pub pvc_controller : Controller
pvc_controller = record {
  kind = Kind.pvc;
  filter = EventFilter.pvc_event_filter;
  max_concurrent_reconciles = 1;
}

-- the index of the attachments by the name of their volume
abbrev pub volume_name_field : String
volume_name_field = "spec.source.persistentVolumeName"

abbrev pub index_volume_name : Option String → List String
index_volume_name none = []
index_volume_name (some name) = name ∷ []

-- What the goroutine of Scheduler.Start sends before it closes the channel: none for the value of a
-- closed channel.
abbrev pub scheduler_error : Result String (Unit {0}) → Option String
scheduler_error (ok a) = none
scheduler_error (err e) = some e

-- The goroutine that waits for the scheduler exits whatever it receives.
abbrev pub on_scheduler_end : Option String → Start (Unit {0})
on_scheduler_end e = return 1

abbrev pub on_end : Ended → Start (Unit {0})
on_end (manager_ended (ok a)) = pure a
on_end (manager_ended (err e)) = exit e
on_end (scheduler_ended r) = on_scheduler_end (scheduler_error r)

module _ {M : Type 0} (sys : System M) where
  abbrev pub options : ManagerOptions
  options = record {
    metrics_bind_address = sys.metrics_addr;
    port = webhook_port;
    health_probe_bind_address = sys.probe_addr;
    leader_election = sys.enable_leader_election;
    leader_election_id = controller_id;
  }

  abbrev pub set_up : Controller → Start (Unit {0})
  set_up c = attempt (Boot.set_up_controller c) (λ h. sys.set_up_controller h c) exit

  -- PVCReconciler.SetupWithManager, but for the goroutine of the monitor
  unfoldable pub set_up_pvc : Start (Unit {0})
  unfolding attempt
  set_up_pvc = do
    attempt (Boot.index_field volume_name_field) (λ h. sys.index_field h volume_name_field) exit
    set_up pvc_controller

  -- DiskConfig.SetupWebhookWithManager; none for dependencies that are missing
  abbrev pub set_up_webhook : Option (Map Bool) → Start (Unit {0})
  set_up_webhook none = exit "dependencies are missing"
  set_up_webhook (some deps) = attempt Boot.set_up_webhook sys.set_up_webhook exit

  abbrev pub strict_mode : String → Start Bool
  strict_mode key = catch (parse_bool_env (sys.getenv key)) exit

  abbrev pub run_manager : Start (Unit {0})
  run_manager = call Boot.start_manager sys.ended >>= λ ended. on_end ended

  -- main, from the mutator on
  unfoldable pub serve : Start (Unit {0})
  unfolding parse_bool_env attempt
  serve = do
    strict_mutator ← strict_mode "MUTATOR_STRICT_MODE"
    call (Boot.register_mutator "/mutate-v1-pod" strict_mutator) (λ h. tt)
    attempt (Boot.add_healthz_check "healthz") (λ h. sys.add_healthz_check h "healthz") exit
    attempt (Boot.add_readyz_check "readyz") (λ h. sys.add_readyz_check h "readyz") exit
    strict_scheduler ← strict_mode "SCHEDULER_STRICT_MODE"
    call (Boot.start_scheduler strict_scheduler) (λ h. tt)
    run_manager

  -- main
  unfoldable pub main : Start (Unit {0})
  unfolding set_up_pvc serve provisioners init_disk_config_webhook_deps
  main = do
    attempt (Boot.new_manager options) (λ h. sys.new_manager h options) exit
    set_up job_controller
    set_up node_controller
    set_up disk_config_controller
    set_up_pvc
    set_up_webhook
        (some (init_disk_config_webhook_deps (provisioners (sys.getenv "SUPPORTED_CSI_DRIVERS"))))
    serve

  -- The packages are initialised in the order of their imports, main last.
  unfoldable pub process : Start (Unit {0})
  unfolding load_drivers register_metrics load_certificates register_schemes main
  process = do
    drivers ← load_drivers sys
    register_metrics sys
    load_certificates sys
    register_schemes sys
    main
