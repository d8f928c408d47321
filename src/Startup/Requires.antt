-- ===== src/Startup/Requires.antt =====
-- main.go: what must have succeeded before the calls of the process.
use discoblock.Base.{String, Bool, List, [], ◌∷◌, ◌++◌, ◌≡◌}
use discoblock.Kube.Exec.{ok}
use discoblock.Kube.Exec.Ordered.{Happened, AllHappened}
use discoblock.Startup.Calls.{Entry, Boot, System}
use discoblock.Startup.Load.{drivers_dir}
use discoblock.Startup.Settings.{parse_bool_env}
use discoblock.Startup.{
  job_controller, node_controller, disk_config_controller, pvc_controller, volume_name_field,
  options,
}

-- the certificates of the metrics, the latest read first
abbrev pub certificates : List Boot
certificates =
    Boot.read_file "/tmp/k8s-webhook-server/metrics-certs/tls.key"
    ∷ Boot.read_file "/tmp/k8s-webhook-server/metrics-certs/tls.crt"
    ∷ Boot.read_file "/tmp/k8s-webhook-server/metrics-certs/ca.crt"
    ∷ []

abbrev pub initialised : List Boot
initialised =
    Boot.add_to_scheme "discoblocks.ondat.io/v1"
    ∷ Boot.add_to_scheme "client-go"
    ∷ (certificates
        ++ Boot.register_metric "operator_discoblocks_pvc_operation_counter"
          ∷ Boot.register_metric "operator_discoblocks_error_counter"
          ∷ Boot.read_dir drivers_dir
          ∷ [])

module _ {M : Type 0} (sys : System M) where
  -- the manager with its controllers and the validation of DiskConfigs
  abbrev pub configured : List Boot
  configured =
      Boot.set_up_webhook
      ∷ Boot.set_up_controller pvc_controller
      ∷ Boot.index_field volume_name_field
      ∷ Boot.set_up_controller disk_config_controller
      ∷ Boot.set_up_controller node_controller
      ∷ Boot.set_up_controller job_controller
      ∷ Boot.new_manager (options sys)
      ∷ initialised

  abbrev pub serving : Bool → Bool → List Boot
  serving strict_mutator strict_scheduler =
      Boot.start_scheduler strict_scheduler
      ∷ Boot.add_readyz_check "readyz"
      ∷ Boot.add_healthz_check "healthz"
      ∷ Boot.register_mutator "/mutate-v1-pod" strict_mutator
      ∷ configured

  -- The call succeeds when it is made after the history.
  abbrev pub Worked : Boot → List Boot → Type 0
  Worked (Boot.read_dir path) h = (entries : List Entry) × (sys.read_dir h path ≡ ok entries)
  Worked (Boot.stat path) h = sys.stat h path ≡ ok tt
  Worked (Boot.read_file path) h = (content : String) × (sys.read_file h path ≡ ok content)
  Worked (Boot.compile content) h = (loaded : M) × (sys.compile h content ≡ ok loaded)
  Worked (Boot.register_metric name) h = sys.register_metric h name ≡ ok tt
  Worked (Boot.add_to_scheme name) h = sys.add_to_scheme h name ≡ ok tt
  Worked (Boot.new_manager settings) h = sys.new_manager h settings ≡ ok tt
  Worked (Boot.set_up_controller c) h = sys.set_up_controller h c ≡ ok tt
  Worked (Boot.index_field name) h = sys.index_field h name ≡ ok tt
  Worked Boot.set_up_webhook h = sys.set_up_webhook h ≡ ok tt
  Worked (Boot.register_mutator path strict) h = Unit
  Worked (Boot.add_healthz_check name) h = sys.add_healthz_check h name ≡ ok tt
  Worked (Boot.add_readyz_check name) h = sys.add_readyz_check h name ≡ ok tt
  Worked (Boot.start_scheduler strict) h = Unit
  Worked Boot.start_manager h = Unit

  -- The manager starts after all else, with the strict modes of the environment; the mutator is
  -- registered after the certificates have been read, and the webhook of DiskConfigs is set up after
  -- the directory of the drivers has been listed.
  abbrev pub Requires : Boot → List Boot → Type 0
  Requires Boot.start_manager h =
      (strict_mutator : Bool) × (strict_scheduler : Bool) × (parse_bool_env
          (sys.getenv "MUTATOR_STRICT_MODE")
        ≡ ok strict_mutator)
      × (parse_bool_env (sys.getenv "SCHEDULER_STRICT_MODE") ≡ ok strict_scheduler)
      × AllHappened Worked (serving strict_mutator strict_scheduler) h
  Requires (Boot.register_mutator path strict) h =
      (parse_bool_env (sys.getenv "MUTATOR_STRICT_MODE") ≡ ok strict)
      × AllHappened Worked certificates h
  Requires Boot.set_up_webhook h = Happened Worked (Boot.read_dir drivers_dir) h
  Requires _ h = Unit
