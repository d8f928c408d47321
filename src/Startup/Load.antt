-- ===== src/Startup/Load.antt =====
-- The init functions: pkg/drivers/drivers.go loads the WASM modules, mutators/pod_mutator.go the
-- certificates, pkg/metrics/metrics.go registers its counters, and main.go the schemes.
use discoblock.Base.{String, ◌⧺◌, Option, List, [], ◌∷◌, Map, get, put, not, if◌then◌else◌}
use discoblock.Kube.Exec.{Result, ok, err, pure, return, crash, call, attempt, ◌>>=◌, ◌>>◌}
use discoblock.Startup.Calls.{Entry, Boot, System, Start}

-- `os.Exit(1)` after a line in the log, and `log.Fatal`
abbrev pub exit : {A : Type 0} → String → Start A
exit e = return 1

-- DriversDir
abbrev pub drivers_dir : String
drivers_dir = "/drivers"

abbrev pub driver_path : String → String
driver_path name = drivers_dir ⧺ "/" ⧺ name ⧺ "/main.wasm"

module _ {M : Type 0} (sys : System M) where
  abbrev pub read_module : String → Map M → Start (Map M)
  read_module name drivers = do
    content ←
        attempt (Boot.read_file (driver_path name)) (λ h. sys.read_file h (driver_path name)) exit
    loaded ← attempt (Boot.compile content) (λ h. sys.compile h content) exit
    pure (put drivers name loaded)

  -- A folder without a main.wasm is passed over.
  abbrev pub on_stat : String → Map M → Result String (Unit {0}) → Start (Map M)
  on_stat name drivers (err e) = pure drivers
  on_stat name drivers (ok found) = read_module name drivers

  -- The paths are clean: filepath.Clean leaves them as they are.
  unfoldable pub load_driver : Entry → Map M → Start (Map M)
  unfolding put attempt
  load_driver entry drivers =
      if not entry.is_dir
      then pure drivers
      else (call (Boot.stat (driver_path entry.name)) (λ h. sys.stat h (driver_path entry.name))
          >>= λ found. on_stat entry.name drivers found)

  unfoldable pub load_entries : List Entry → Map M → Start (Map M)
  unfolding load_driver ◌>>=◌
  load_entries [] drivers = pure drivers
  load_entries (entry ∷ rest) drivers =
      load_driver entry drivers >>= λ loaded. load_entries rest loaded

  -- pkg/drivers: init
  unfoldable pub load_drivers : Start (Map M)
  unfolding load_entries attempt
  load_drivers = do
    files ← attempt (Boot.read_dir drivers_dir) (λ h. sys.read_dir h drivers_dir) exit
    load_entries files []

  -- `panic(err)`
  abbrev pub or_die : {A : Type 0} → Boot → (List Boot → Result String A) → Start A
  or_die c f = attempt c f λ e. crash

  -- pkg/utils: ReadFileOrDie
  unfoldable pub read_file_or_die : String → Start String
  unfolding attempt
  read_file_or_die path = or_die (Boot.read_file path) (λ h. sys.read_file h path)

  -- mutators: init
  unfoldable pub load_certificates : Start (Unit {0})
  unfolding read_file_or_die ◌>>=◌
  load_certificates = do
    read_file_or_die "/tmp/k8s-webhook-server/metrics-certs/ca.crt"
    read_file_or_die "/tmp/k8s-webhook-server/metrics-certs/tls.crt"
    read_file_or_die "/tmp/k8s-webhook-server/metrics-certs/tls.key"
    pure tt

  -- metrics.Registry.MustRegister
  unfoldable pub register_metric : String → Start (Unit {0})
  unfolding attempt
  register_metric name = or_die (Boot.register_metric name) (λ h. sys.register_metric h name)

  -- pkg/metrics: init
  unfoldable pub register_metrics : Start (Unit {0})
  unfolding register_metric ◌>>=◌
  register_metrics = do
    register_metric "operator_discoblocks_error_counter"
    register_metric "operator_discoblocks_pvc_operation_counter"

  -- utilruntime.Must on an AddToScheme
  unfoldable pub add_to_scheme : String → Start (Unit {0})
  unfolding attempt
  add_to_scheme name = or_die (Boot.add_to_scheme name) (λ h. sys.add_to_scheme h name)

  -- main: init
  unfoldable pub register_schemes : Start (Unit {0})
  unfolding add_to_scheme ◌>>=◌
  register_schemes = do add_to_scheme "client-go"; add_to_scheme "discoblocks.ondat.io/v1"

-- GetDriver
unfoldable pub get_driver : {M : Type 0} → Map M → String → Option M
unfolding get
get_driver drivers name = get drivers name
