-- ===== src/Examples/Startup.antt =====
-- main.go: a start of the process with one driver, beside a file and a folder that has none.
use discoblock.Base.{String, true, false, [], ◌∷◌, List, All, ◌≡◌, refl, str_eq, if◌then◌else◌}
use discoblock.Kube.Exec.{ok, err, next}
use discoblock.Kube.Exec.Ordered.{InOrder}
use discoblock.Kube.Exec.Returns.{Returns}
use discoblock.Startup.{process}
use discoblock.Startup.Calls.{Entry, System, Ended}
use discoblock.Startup.Load.{load_drivers}
use discoblock.Startup.Order.{process-InOrder}
use discoblock.Startup.Requires.{Requires}
use discoblock.Startup.Loaded.{Exits, IsListing, IsSound, IsComplete, load_drivers-Returns}

-- a module is the content of its file
abbrev machine : System String
machine = record {
  read_dir = λ h path. ok (
      record { name = "README.md"; is_dir = false }
      ∷ record { name = "ebs.csi.aws.com"; is_dir = true }
      ∷ record { name = "empty"; is_dir = true }
      ∷ []);
  stat = λ h path. if str_eq path "/drivers/ebs.csi.aws.com/main.wasm" then ok tt else err "ENOENT";
  read_file = λ h path. ok "wasm";
  compile = λ h content. ok content;
  register_metric = λ h name. ok tt;
  add_to_scheme = λ h name. ok tt;
  getenv = λ key. "true";
  metrics_addr = ":8080";
  probe_addr = ":8081";
  enable_leader_election = false;
  new_manager = λ h o. ok tt;
  set_up_controller = λ h c. ok tt;
  index_field = λ h field. ok tt;
  set_up_webhook = λ h. ok tt;
  add_healthz_check = λ h name. ok tt;
  add_readyz_check = λ h name. ok tt;
  ended = λ h. Ended.manager_ended (ok tt);
}

process_runs : (process machine []).0 ≡ next tt
unfolding process
process_runs = refl

loaded_runs : (load_drivers machine []).0 ≡ next (("ebs.csi.aws.com", "wasm") ∷ [])
unfolding load_drivers
loaded_runs = refl

process-InOrder_example : InOrder (Requires machine) (process machine []).1
process-InOrder_example = process-InOrder machine

load_drivers-Returns_example :
    Returns ⊥ Exits
      (λ drivers.
        (listed : List Entry) × IsListing machine listed
        × IsSound machine listed drivers
        × All (IsComplete machine drivers) listed)
      (load_drivers machine)
load_drivers-Returns_example = load_drivers-Returns machine
