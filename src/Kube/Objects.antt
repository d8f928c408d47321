-- ===== src/Kube/Objects.antt =====
-- The fields of the Kubernetes objects that the program uses (k8s.io/api), and the custom resource
-- of api/v1/diskconfig_types.go. Times are nanoseconds; a nil pointer is `none`.
use discoblock.Base.{ℕ, String, Bool, Option, none, List, [], Map}
use discoblock.Base.Int.{ℤ}
use discoblock.Kube.Quantity.{Quantity}

pub record OwnerReference : Type 0 where
  pub api_version : String
  pub kind : String
  pub name : String
  pub uid : String

pub record Meta : Type 0 where
  pub name : String
  pub namespace : String
  pub uid : String
  pub resource_version : String
  pub generation : ℕ
  pub labels : Map String
  pub annotations : Map String
  pub finalizers : List String
  pub owners : List OwnerReference
  pub created : ℕ
  pub deleted : Option ℕ

-- `metav1.ObjectMeta{}`
abbrev pub empty_meta : Meta
empty_meta = record {
  name = "";
  namespace = "";
  uid = "";
  resource_version = "";
  generation = 0;
  labels = [];
  annotations = [];
  finalizers = [];
  owners = [];
  created = 0;
  deleted = none;
}

-- api/v1: AvailabilityMode
pub data AvailabilityMode : Type 0 where
  read_write_same read_write_once read_write_daemon : AvailabilityMode
  -- A text that is none of the three constants.
  unknown_mode : String → AvailabilityMode

-- api/v1: Policy
pub record Policy : Type 0 where
  pub upscale_trigger_percentage : ℕ
  pub maximum_capacity_of_disk : Quantity
  pub maximum_number_of_disks : ℕ
  pub extend_capacity : Quantity
  pub cool_down : ℤ
  pub pause : Bool

-- api/v1: DiskConfigSpec; `node_selector` is the matchLabels of the selector.
pub record DiskConfigSpec : Type 0 where
  pub storage_class_name : String
  pub capacity : Quantity
  pub mount_point_pattern : String
  pub access_modes : List String
  pub availability_mode : AvailabilityMode
  pub node_selector : Option (Map String)
  pub pod_selector : Map String
  pub policy : Policy

pub record Condition : Type 0 where
  pub status : Bool
  pub kind : String
  pub observed_generation : ℕ
  pub transition : ℕ
  pub reason : String
  pub message : String

-- api/v1: DiskConfig with its DiskConfigStatus, whose only field is `conditions`
pub record DiskConfig : Type 0 where
  pub meta : Meta
  pub open meta use *
  pub spec : DiskConfigSpec
  pub conditions : List Condition

-- A topology term, by what its `String()` prints.
pub record TopologyTerm : Type 0 where
  pub text : String

pub record StorageClass : Type 0 where
  pub meta : Meta
  pub open meta use *
  pub provisioner : String
  pub volume_binding_mode : Option String
  pub allow_volume_expansion : Option Bool
  pub allowed_topologies : List TopologyTerm

pub record Pvc : Type 0 where
  pub meta : Meta
  pub open meta use *
  pub api_version : String
  pub kind : String
  pub storage_class_name : Option String
  pub request : Quantity
  pub access_modes : List String
  pub volume_name : String
  pub phase : String
  pub resize_status : Option String
  pub capacity : Quantity

pub record NodeSelectorRequirement : Type 0 where
  pub key : String
  pub operator : String
  pub values : List String

-- The node selector terms of the required node affinity, each by its match fields.
abbrev pub NodeSelectorTerms : Type 0
NodeSelectorTerms = List (List NodeSelectorRequirement)

-- spec.affinity: each pointer on the way to the terms may be nil.
pub record NodeAffinity : Type 0 where
  pub required : Option NodeSelectorTerms

pub record Affinity : Type 0 where
  pub node_affinity : Option NodeAffinity

pub data VolumeSource : Type 0 where
  claim host_path : String → VolumeSource
  secret : String → VolumeSource
  empty_dir other_source : VolumeSource

pub record Volume : Type 0 where
  pub name : String
  pub source : VolumeSource

pub record VolumeMount : Type 0 where
  pub name : String
  pub mount_path : String
  pub read_only : Bool

pub record Container : Type 0 where
  pub name : String
  pub volume_mounts : List VolumeMount

pub record Pod : Type 0 where
  pub meta : Meta
  pub open meta use *
  pub api_version : String
  pub kind : String
  pub affinity : Option Affinity
  pub scheduler_name : String
  pub volumes : List Volume
  pub containers : List Container
  pub host_ip : String
  pub container_ids : List String

-- status.addresses, each with its type
pub record Node : Type 0 where
  pub meta : Meta
  pub open meta use *
  pub addresses : List (String × String)

pub record Job : Type 0 where
  pub meta : Meta
  pub open meta use *
  pub succeeded : ℕ
  pub completed : Option ℕ

pub record CsiSource : Type 0 where
  pub volume_handle : String
  pub fs_type : String

pub record PersistentVolume : Type 0 where
  pub meta : Meta
  pub open meta use *
  pub csi : Option CsiSource

pub record VolumeAttachment : Type 0 where
  pub meta : Meta
  pub open meta use *
  pub attacher : String
  pub persistent_volume_name : Option String
  pub node_name : String
  pub attached : Bool
  pub attachment_metadata : Map String
