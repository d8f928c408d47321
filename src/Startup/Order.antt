-- ===== src/Startup/Order.antt =====
-- main.go: in which order the process makes its calls.
use discoblock.Base.{String, Bool, List, [], ◌∷◌, ◌++◌, Map, ◌≡◌}
use discoblock.Kube.Exec.{Result, ok, err, call, attempt}
use discoblock.Kube.Exec.Ordered.{
  AllHappened, InOrder, Leads, Leads-pure, Leads-return, Leads-crash, Leads-call, Leads-told,
  Leads-if, Leads-bind, Leads-forget, Leads-forget_all, Leads-attempt, Leads-known,
}
use discoblock.Startup.Calls.{
  Entry, Controller, Boot, Ended, manager_ended, scheduler_ended, System, Start,
}
use discoblock.Startup.Load.{
  exit, drivers_dir, on_stat, load_driver, load_entries, load_drivers, or_die, read_file_or_die,
  load_certificates, register_metric, register_metrics, add_to_scheme, register_schemes,
}
use discoblock.Startup.Requires.{certificates, initialised, configured, serving, Worked, Requires}
use discoblock.Startup.Settings.{parse_bool_env}
use discoblock.Startup.{
  job_controller, node_controller, disk_config_controller, pvc_controller, volume_name_field,
  on_end, options, set_up, set_up_pvc, run_manager, serve, main, process,
}

module _ {M : Type 0} (sys : System M) where
  abbrev Ordered : {A : Type 0} → List Boot → List Boot → Start A → Type 0
  Ordered pre post m = Leads (Worked sys) (Requires sys) pre post m

  exit-Ordered :
      {A : Type 0} {pre post : List Boot} (e : String) → Ordered pre post (exit {A = A} e)
  exit-Ordered e = Leads-return 1

  on_stat-Ordered :
      {pre : List Boot} (name : String) (drivers : Map M) (r : Result String (Unit {0}))
      → Ordered pre pre (on_stat sys name drivers r)
  on_stat-Ordered name drivers (err e) = Leads-pure drivers
  on_stat-Ordered name drivers (ok found) = Leads-forget _ _ (
      Leads-bind _ _ (Leads-attempt _ _ _ (λ _ _. tt) (λ h a e. (a, e)) exit-Ordered) λ content.
        Leads-forget _ _ (
          Leads-bind _ _ (Leads-attempt _ _ _ (λ _ _. tt) (λ h a e. (a, e)) exit-Ordered)
            λ loaded. Leads-pure _))

  load_driver-Ordered :
      {pre : List Boot} (entry : Entry) (drivers : Map M)
      → Ordered pre pre (load_driver sys entry drivers)
  unfolding load_driver
  load_driver-Ordered entry drivers = Leads-if _ _ _ (Leads-pure drivers) (
      Leads-bind _ _ (Leads-told _ _ (λ _ _. tt)) λ found. on_stat-Ordered entry.name drivers found)

  load_entries-Ordered :
      {pre : List Boot} (entries : List Entry) (drivers : Map M)
      → Ordered pre pre (load_entries sys entries drivers)
  unfolding load_entries
  load_entries-Ordered [] drivers = Leads-pure drivers
  load_entries-Ordered (entry ∷ rest) drivers =
      Leads-bind _ _ (load_driver-Ordered entry drivers) (load_entries-Ordered rest)

  load_drivers-Ordered : Ordered [] (Boot.read_dir drivers_dir ∷ []) (load_drivers sys)
  unfolding load_drivers
  load_drivers-Ordered =
      Leads-bind _ _
        (Leads-attempt (Boot.read_dir drivers_dir) (λ h. sys.read_dir h drivers_dir) _ (λ _ _. tt)
          (λ h a e. (a, e)) exit-Ordered)
        λ files. load_entries-Ordered files []

  or_die-Ordered :
      {A : Type 0} {pre : List Boot} (c : Boot) (f : List Boot → Result String A)
      → ((h : List Boot) → AllHappened (Worked sys) pre h → Requires sys c h)
      → ((h : List Boot) (a : A) → f h ≡ ok a → Worked sys c h)
      → Ordered pre (c ∷ pre) (or_die sys c f)
  or_die-Ordered c f p good = Leads-attempt c f _ p good (λ e. Leads-crash)

  read_file_or_die-Ordered :
      {pre : List Boot} (path : String)
      → Ordered pre (Boot.read_file path ∷ pre) (read_file_or_die sys path)
  unfolding read_file_or_die
  read_file_or_die-Ordered path = or_die-Ordered _ _ (λ _ _. tt) (λ h a e. (a, e))

  load_certificates-Ordered :
      {pre : List Boot} → Ordered pre (certificates ++ pre) (load_certificates sys)
  unfolding load_certificates
  load_certificates-Ordered = Leads-bind _ _ (read_file_or_die-Ordered _) λ _.
      Leads-bind _ _ (read_file_or_die-Ordered _)
        λ _. Leads-bind _ _ (read_file_or_die-Ordered _) λ _. Leads-pure tt

  check-Ordered :
      {pre : List Boot} (c : Boot) (f : List Boot → Result String (Unit {0}))
      → ((h : List Boot) → AllHappened (Worked sys) pre h → Requires sys c h)
      → ((h : List Boot) → f h ≡ ok tt → Worked sys c h)
      → Ordered pre (c ∷ pre) (attempt c f exit)
  check-Ordered c f p good = Leads-attempt c f _ p (λ h _ e. good h e) exit-Ordered

  set_up-Ordered :
      {pre : List Boot} (c : Controller)
      → Ordered pre (Boot.set_up_controller c ∷ pre) (set_up sys c)
  set_up-Ordered c = check-Ordered _ _ (λ _ _. tt) (λ h e. e)

  set_up_pvc-Ordered :
      {pre : List Boot}
      → Ordered pre
          (Boot.set_up_controller pvc_controller ∷ Boot.index_field volume_name_field ∷ pre)
          (set_up_pvc sys)
  unfolding set_up_pvc
  set_up_pvc-Ordered =
      Leads-bind _ _ (Leads-attempt _ _ _ (λ _ _. tt) (λ h _ e. e) exit-Ordered)
        λ _. set_up-Ordered pvc_controller

  on_end-Ordered : {pre : List Boot} (e : Ended) → Ordered pre pre (on_end e)
  on_end-Ordered (manager_ended (ok a)) = Leads-pure a
  on_end-Ordered (manager_ended (err e)) = exit-Ordered e
  on_end-Ordered (scheduler_ended r) = Leads-return 1

  register-Ordered :
      (strict : Bool)
      → parse_bool_env (sys.getenv "MUTATOR_STRICT_MODE") ≡ ok strict
      → Ordered
          (configured sys)
          (Boot.register_mutator "/mutate-v1-pod" strict ∷ configured sys)
          (call (Boot.register_mutator "/mutate-v1-pod" strict) (λ h. tt))
  register-Ordered strict mutator =
      Leads-call _ _
        (λ h k. let c = k.1.1.1.1.1.1.1.1.1 in (mutator, (c.0, (c.1.0, (c.1.1.0, tt))))) λ h. tt

  run_manager-Ordered :
      (strict_mutator strict_scheduler : Bool)
      → parse_bool_env (sys.getenv "MUTATOR_STRICT_MODE") ≡ ok strict_mutator
      → parse_bool_env (sys.getenv "SCHEDULER_STRICT_MODE") ≡ ok strict_scheduler
      → Ordered (serving sys strict_mutator strict_scheduler) [] (run_manager sys)
  run_manager-Ordered strict_mutator strict_scheduler mutator scheduler = Leads-forget_all _ (
      Leads-bind _ _
        (Leads-call Boot.start_manager sys.ended
          (λ h k. (strict_mutator, strict_scheduler, mutator, scheduler, k)) λ h. tt)
        on_end-Ordered)

  serve-Ordered : Ordered (configured sys) [] (serve sys)
  unfolding serve
  serve-Ordered = Leads-known _ _ _ λ strict_mutator mutator.
      Leads-bind _ _ (register-Ordered strict_mutator mutator) λ _.
        Leads-bind _ _
          (check-Ordered (Boot.add_healthz_check "healthz") (λ h. sys.add_healthz_check h "healthz")
            (λ _ _. tt) (λ h e. e))
          λ _.
            Leads-bind _ _
              (check-Ordered (Boot.add_readyz_check "readyz") (λ h. sys.add_readyz_check h "readyz")
                (λ _ _. tt) (λ h e. e))
              λ _.
                Leads-known _ (λ _. 1) _
                  λ strict_scheduler scheduler.
                    Leads-bind _ _
                      (Leads-call (Boot.start_scheduler strict_scheduler) (λ _. tt) (λ _ _. tt)
                        (λ _. tt))
                      λ _. run_manager-Ordered strict_mutator strict_scheduler mutator scheduler

  main-Ordered : Ordered initialised [] (main sys)
  unfolding main
  main-Ordered =
      Leads-bind _ _
        (check-Ordered (Boot.new_manager (options sys)) (λ h. sys.new_manager h (options sys))
          (λ _ _. tt) (λ h e. e))
        λ _. Leads-bind _ _ (set_up-Ordered job_controller) λ _.
          Leads-bind _ _ (set_up-Ordered node_controller) λ _.
            Leads-bind _ _ (set_up-Ordered disk_config_controller) λ _.
              Leads-bind _ _ set_up_pvc-Ordered λ _.
                Leads-bind _ _
                  (check-Ordered Boot.set_up_webhook sys.set_up_webhook
                    (λ h k. k.1.1.1.1.1.1.1.1.1.1.1.1.1.0) (λ h e. e))
                  λ _. serve-Ordered

  register_metric-Ordered :
      {pre : List Boot} (name : String)
      → Ordered pre (Boot.register_metric name ∷ pre) (register_metric sys name)
  unfolding register_metric
  register_metric-Ordered name = or_die-Ordered _ _ (λ _ _. tt) (λ h _ e. e)

  add_to_scheme-Ordered :
      {pre : List Boot} (name : String)
      → Ordered pre (Boot.add_to_scheme name ∷ pre) (add_to_scheme sys name)
  unfolding add_to_scheme
  add_to_scheme-Ordered name = or_die-Ordered _ _ (λ _ _. tt) (λ h _ e. e)

  register_metrics-Ordered :
      {pre : List Boot}
      → Ordered pre
          (Boot.register_metric "operator_discoblocks_pvc_operation_counter"
            ∷ Boot.register_metric "operator_discoblocks_error_counter"
            ∷ pre)
          (register_metrics sys)
  unfolding register_metrics
  register_metrics-Ordered =
      Leads-bind _ _ (register_metric-Ordered _) λ _. register_metric-Ordered _

  register_schemes-Ordered :
      {pre : List Boot}
      → Ordered pre
          (Boot.add_to_scheme "discoblocks.ondat.io/v1" ∷ Boot.add_to_scheme "client-go" ∷ pre)
          (register_schemes sys)
  unfolding register_schemes
  register_schemes-Ordered = Leads-bind _ _ (add_to_scheme-Ordered _) λ _. add_to_scheme-Ordered _

  process-Leads : Ordered [] [] (process sys)
  unfolding process
  process-Leads = Leads-bind _ _ load_drivers-Ordered λ drivers.
      Leads-bind _ _ register_metrics-Ordered λ _.
        Leads-bind _ _ load_certificates-Ordered
          λ _. Leads-bind _ _ register_schemes-Ordered λ _. main-Ordered

  -- In the history of the process, the manager starts only after these calls succeeded: listing the
  -- directory of the drivers, reading the three certificates, registering both metrics and both
  -- schemes, making the manager, setting up all four controllers, the index of the volume names and
  -- the webhook of DiskConfigs, and adding both checks; and after the mutator was registered and the
  -- scheduler started with the strict modes that their variables parse to. The mutator is
  -- registered, with this mode, only after the certificates were read, and the webhook of DiskConfigs
  -- is set up only after the directory of the drivers was listed.
  pub process-InOrder : InOrder (Requires sys) (process sys []).1
  process-InOrder = (process-Leads.at [] tt tt).0
