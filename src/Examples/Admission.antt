-- ===== src/Examples/Admission.antt =====
-- The webhook, the scheduler's filter and the drivers at concrete objects.
use Prim.Native.Nat.{compare}
use Prim.Native.String.{count}
use text.Mathlib.TextLemmas.{length-append}
use discoblock.Base.{
  some, String, ◌⧺◌, true, false, none, List, [], ◌∷◌, Map, is_some, str_eq, ◌≡◌, refl, sym, ap,
  ◌∙◌, arith, label, get,
}
use discoblock.Base.Int.{ℤ, pos}
use discoblock.Kube.Objects.{DiskConfig}
use discoblock.Kube.Quantity.{Quantity, Quantities, IsExact, compare_ℤ}
use discoblock.Kube.Exec.{Result, ok}
use discoblock.Kube.Exec.Returns.{Returns}
use discoblock.Webhook.{old_config, validate}
use discoblock.Webhook.Accepted.{SilentRefusal, Passes, validate-Returns}
use discoblock.Webhook.Lifetime.{start}
use discoblock.Scheduler.{NodeInfo, filter}
use discoblock.Scheduler.Lenient.{Calm, filter-Calm}
use discoblock.Drivers.Program.{FastJson, Output}
use discoblock.Drivers.StorageOs
use discoblock.Drivers.Ebs
use discoblock.Drivers.Host.{
  Wasmer, Json, is_storage_class_valid, init, start_export, call_export, parse_bool,
}
use discoblock.Drivers.Verdict.{Runs, StorageOsGood, storage_os_judged}
use discoblock.Examples.World.{config, spec, storage_class, pod, node, world, pvc}

-- Quantities written as tallies, `III` for three.
abbrev pub tally : Quantity → ℤ
tally t = pos (count t)

abbrev pub tallies : Quantities
tallies = record {
  cmp = λ a b. compare_ℤ (tally a) (tally b);
  add = λ a b. a ⧺ b;
  cmp_zero = λ a. compare (count a) 0;
}

pub tallies-IsExact : IsExact tallies tally
tallies-IsExact = record {
  cmp_lem = λ a b. refl;
  add_lem = λ a b. rw (length-append a b) (omega arith);
  cmp_zero_lem = λ a. refl;
}

abbrev provisioners : List String
provisioners = "ebs.csi.aws.com" ∷ []

validate-Returns_example :
    Returns
      (SilentRefusal world)
      (λ r. is_some r ≡ true)
      (λ r. (r ≡ none) × Passes tallies world provisioners config (old_config config))
      (validate tallies world provisioners config (old_config config))
validate-Returns_example = validate-Returns tallies world provisioners config (old_config config)

abbrev grown : DiskConfig
grown = record config { spec = record spec { capacity = "III" } }

abbrev node_info : NodeInfo
node_info = record { node = some node; pods = pod ∷ [] }

filter-Calm_example :
    Returns (node_info.node ≡ none) Calm Calm (filter world false node_info (λ l. l) pod)
filter-Calm_example = filter-Calm world node_info (λ l. l) pod

-- A machine that runs one program: its state is the environment and the export that was called last.
module _ (program : Map String → String → Output) where
  abbrev State : Type 0
  State = Map String × String

  abbrev machine : Wasmer State
  machine = record {
    finalize = λ envs. ok (envs, "");
    generate_import_object = λ s. ok s;
    new_instance = λ s. ok s;
    get_wasi_start_function = λ s. ok tt;
    start = λ s. ok s;
    get_raw_function = λ s name. ok tt;
    run = λ s name. ok (s.0, name);
    read_stderr = λ s. ((program s.0 s.1).stderr, s);
    read_stdout = λ s. ((program s.0 s.1).stdout, s);
  }

  ok_same : (a b : State) → ◌≡◌ {A = Result String State} (ok a) (ok b) → a ≡ b
  ok_same a b h = ground arith

  machine-Runs : Runs machine program
  unfolding init
  machine-Runs = record {
    printed = λ envs s started name t ran.
        let made = ok_same _ s started in
        let called = ok_same _ t ran in
        let same_env : t.0 ≡ envs =
          sym (ap (λ (u : State). u.0) made ∙ ap (λ (u : State). u.0) called) in
        let same_name : t.1 ≡ name = sym (ap (λ (u : State). u.1) called) in
        rw (same_env, same_name) (refl, refl);
  }

-- A reader of the text `{"allowVolumeExpansion": true}`, whatever it is given.
abbrev reader : FastJson
reader = record {
  exists = λ text key. str_eq key "allowVolumeExpansion";
  get_string = λ text path. "";
  get_bool = λ text key. true;
}

abbrev json : Json
json = record {
  encode_class = λ sc. ok sc.name;
  encode_node = λ n. ok n.name;
  encode_volume = λ pv. ok pv.name;
  encode_attachment = λ va. ok va.name;
  decode_terms = λ text. ok [];
  decode_pvc = λ text. ok pvc;
  decode_labels = λ text. ok [];
}

accepted_storage_os :
    is_storage_class_valid (machine (StorageOs.run_export reader)) json storage_class ≡ ok true
unfolding is_storage_class_valid StorageOs.run_export start_export call_export init parse_bool label
    get
accepted_storage_os = refl

storage_os_judged_example :
    (true ≡ true)
    × ((raw : String) × ((json.encode_class storage_class ≡ ok raw) × StorageOsGood reader raw))
storage_os_judged_example =
    storage_os_judged (machine (StorageOs.run_export reader)) json reader
      (machine-Runs (StorageOs.run_export reader)) storage_class true accepted_storage_os

accepted_ebs : is_storage_class_valid (machine (Ebs.run_export reader)) json storage_class ≡ ok true
unfolding is_storage_class_valid Ebs.run_export start_export call_export init parse_bool label get
accepted_ebs = refl
