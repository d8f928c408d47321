-- ===== src/Examples/World.antt =====
-- An API server with one object of each kind, whose finalizers are lists without repetition.
use discoblock.Base.{
  String, true, false, not, ◌||◌, ◌&&◌, none, some, List, [], ◌∷◌, ◌++◌, any, keep, if◌then◌else◌,
  ◌≡◌, arith, str_eq, eq_iff,
}
use discoblock.Base.Int.{pos}
use discoblock.Kube.Objects.{
  Meta, Policy, DiskConfigSpec, DiskConfig, AvailabilityMode, Condition, StorageClass, Pvc, Pod,
  Node, Job, PersistentVolume, VolumeAttachment,
}
use discoblock.Kube.Exec.{ok}
use discoblock.Kube.Api.{Api, HasFinalizers}

abbrev pub meta_of : String → List (String × String) → List String → Meta
meta_of name labels finalizers = record {
  name = name;
  namespace = "default";
  uid = "uid-1";
  resource_version = "1";
  generation = 1;
  labels = labels;
  annotations = [];
  finalizers = finalizers;
  owners = [];
  created = 0;
  deleted = none;
}

abbrev pub policy : Policy
policy = record {
  upscale_trigger_percentage = 80;
  maximum_capacity_of_disk = "IIIIIIIII";
  maximum_number_of_disks = 3;
  extend_capacity = "I";
  cool_down = pos 60000000000;
  pause = false;
}

abbrev pub spec : DiskConfigSpec
spec = record {
  storage_class_name = "fast";
  capacity = "II";
  mount_point_pattern = "/data-%d";
  access_modes = [];
  availability_mode = AvailabilityMode.read_write_once;
  node_selector = some (("disk", "ssd") ∷ []);
  pod_selector = ("app", "nginx") ∷ [];
  policy = policy;
}

abbrev pub condition : String → String → Condition
condition pvc_name text = record {
  status = true;
  kind = text;
  observed_generation = 1;
  transition = 5;
  reason = "PvcPhaseHasChanged";
  message = pvc_name;
}

abbrev pub config : DiskConfig
config = record {
  meta = meta_of "web" [] [];
  spec = spec;
  conditions = condition "pvc-1" "Bound" ∷ condition "pvc-2" "Pending" ∷ [];
}

abbrev pub storage_class : StorageClass
storage_class = record {
  meta = meta_of "fast" [] [];
  provisioner = "ebs.csi.aws.com";
  volume_binding_mode = none;
  allow_volume_expansion = some true;
  allowed_topologies = [];
}

abbrev pub pvc : Pvc
pvc = record {
  meta = meta_of "pvc-1" (("discoblocks", "web") ∷ []) ("discoblocks.io/web" ∷ []);
  api_version = "v1";
  kind = "PersistentVolumeClaim";
  storage_class_name = some "fast";
  request = "II";
  access_modes = "ReadWriteOnce" ∷ [];
  volume_name = "pv-1";
  phase = "Bound";
  resize_status = none;
  capacity = "II";
}

abbrev pub pod : Pod
pod = record {
  meta = meta_of "nginx" (("app", "nginx") ∷ []) [];
  api_version = "v1";
  kind = "Pod";
  affinity = none;
  scheduler_name = "";
  volumes = [];
  containers = [];
  host_ip = "10.0.0.1";
  container_ids = [];
}

abbrev pub node : Node
node = record {
  meta = meta_of "node-object" (("disk", "ssd") ∷ []) [];
  addresses = ("Hostname", "host-1") ∷ ("InternalIP", "10.0.0.1") ∷ [];
}

abbrev pub job : Job
job = record { meta = meta_of "resize" [] []; succeeded = 1; completed = some 9 }

abbrev pub persistent_volume : PersistentVolume
persistent_volume = record {
  meta = meta_of "pv-1" [] [];
  csi = some (record { volume_handle = "vol-1"; fs_type = "ext4" });
}

abbrev pub attachment : VolumeAttachment
attachment = record {
  meta = meta_of "va-1" [] [];
  attacher = "ebs.csi.aws.com";
  persistent_volume_name = some "pv-1";
  node_name = "host-1";
  attached = true;
  attachment_metadata = [];
}

abbrev pub world : Api
world = record {
  list_disk_configs = λ h ns. ok (config ∷ []);
  get_disk_config = λ h ns n. ok config;
  update_disk_config_status = λ h c. ok tt;
  get_storage_class = λ h n. ok storage_class;
  list_storage_classes = λ h. ok (storage_class ∷ []);
  create_storage_class = λ h sc. ok tt;
  update_storage_class = λ h sc. ok tt;
  get_node = λ h n. ok node;
  get_pvc = λ h ns n. ok pvc;
  list_pvcs = λ h ns k v. ok (pvc ∷ []);
  create_pvc = λ h p. ok tt;
  update_pvc = λ h p. ok tt;
  get_pod = λ h ns n. ok pod;
  list_pods = λ h ns k v. ok (pod ∷ []);
  delete_pod = λ h p. ok tt;
  get_job = λ h ns n. ok job;
  delete_job = λ h j. ok tt;
  create_secret = λ h ns n. ok tt;
  send_event = λ h e. ok tt;
  create_event = λ h n e. ok tt;
  get_pv = λ h n. ok persistent_volume;
  list_volume_attachments = λ h n. ok (attachment ∷ []);
  create_volume_attachment = λ h va. ok tt;
  create_job = λ h j. ok tt;
  has_driver = λ p. str_eq p "ebs.csi.aws.com";
  is_storage_class_valid = λ h p sc. ok true;
  get_pvc_stub = λ h p n ns sc. ok pvc;
  get_allowed_topology = λ h p n. ok [];
  get_csi_driver_details = λ h p. ok ("kube-system", ("app", "ebs-csi-controller") ∷ []);
  is_file_system_managed = λ h p. ok false;
  wait_for_volume_attachment_meta = λ h p. ok "";
  get_pre_mount_command = λ h p pv va. ok "mount-it";
  get_pre_resize_command = λ h p pv va. ok "resize-it";
  decode_job = λ text. ok job;
  decode_container = λ text. ok (record { name = "sidecar"; volume_mounts = [] });
  is_requirement = λ k v. true;
  contains_finalizer = λ l f. any (str_eq f) l;
  add_finalizer = λ l f. if any (str_eq f) l then l else l ++ f ∷ [];
  remove_finalizer = λ l f. keep (λ g. not (str_eq f g)) l;
  now = λ h. 7;
  now_text = λ h. "now";
  random_name = λ h. "brave_name";
}

any-append :
    (f g : String) (l : List String)
    → any (str_eq g) (l ++ f ∷ []) ≡ (str_eq f g || any (str_eq g) l)
any-append f g [] = ground (arith, eq_iff f g, eq_iff g f)
any-append f g (x ∷ l) = ground (arith, any-append f g l)

any_same :
    (f g : String) (l : List String)
    → any (str_eq f) l ≡ true
    → str_eq f g ≡ true
    → any (str_eq g) l ≡ true
any_same f g l h e = rw (← (eq_iff f g).0 e) h

any-keep :
    (f g : String) (l : List String)
    → any (str_eq g) (keep (λ x. not (str_eq f x)) l) ≡ (not (str_eq f g) && any (str_eq g) l)
any-keep f g [] = ground arith
any-keep f g (x ∷ l) = ground (arith, any-keep f g l, eq_iff f g, eq_iff g x, eq_iff f x)

pub world-HasFinalizers : HasFinalizers world
world-HasFinalizers = record {
  contains_add = λ l f g. ground (arith, any-append f g l, any_same f g l);
  contains_remove = λ l f g. any-keep f g l;
  contains_one = λ f g. ground (arith, eq_iff f g, eq_iff g f);
}
