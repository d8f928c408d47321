-- ===== src/Kube/Api.antt =====
-- The calls that the program makes to the API server and to the drivers. The server and the drivers
-- are a parameter: each answer is a function of the calls made before it, so other clients of the
-- server and the passing of time are inside it.
use discoblock.Base.{
  ℕ, String, Bool, true, false, Option, List, [], ◌∷◌, Map, ◌≡◌, ◌⊎◌, ◌||◌, ◌&&◌, not, str_eq,
}
use discoblock.Kube.Objects.{
  Meta, DiskConfig, StorageClass, TopologyTerm, Pvc, Node, Pod, Job, Container, PersistentVolume,
  VolumeAttachment,
}
use discoblock.Kube.Exec.{Result, Exec}

-- What k8s.io/apimachinery/pkg/api/errors tells apart, with the error's text.
pub data ApiError : Type 0 where
  not_found already_exists failed : String → ApiError

abbrev pub is_not_found : ApiError → Bool
is_not_found (not_found e) = true
is_not_found _ = false

abbrev pub is_already_exists : ApiError → Bool
is_already_exists (already_exists e) = true
is_already_exists _ = false

-- `err.Error()`
abbrev pub message : ApiError → String
message (not_found e) = e
message (already_exists e) = e
message (failed e) = e

-- What an event says of an object.
pub record Reference : Type 0 where
  pub namespace : String
  pub name : String
  pub uid : String

abbrev pub reference : Meta → Reference
reference meta = record { namespace = meta.namespace; name = meta.name; uid = meta.uid }

-- `related` of an event: none, an object, or the nil pointer of an object type in an interface.
pub data Related : Type 0 where
  no_object nil_object : Related
  object : Reference → Related

pub record Event : Type 0 where
  pub warning : Bool
  pub namespace : String
  pub reporter : String
  pub action : String
  pub reason : String
  pub note : String
  pub regarding : Reference
  pub related : Related

-- Lists carry the namespace, if there is one, and the label that must have a value.
pub data Call : Type 0 where
  list_disk_configs : Option String → Call
  get_disk_config : String → String → Call
  update_disk_config_status : DiskConfig → Call
  get_storage_class : String → Call
  list_storage_classes : Call
  create_storage_class update_storage_class : StorageClass → Call
  get_node : String → Call
  get_pvc : String → String → Call
  list_pvcs : String → String → String → Call
  create_pvc update_pvc : Pvc → Call
  get_pod : String → String → Call
  list_pods : String → String → String → Call
  delete_pod : Pod → Call
  get_job : String → String → Call
  delete_job : Job → Call
  create_secret : String → String → Call
  send_event : Event → Call
  create_event : String → Event → Call
  is_storage_class_valid : String → StorageClass → Call
  get_pvc_stub : String → String → String → String → Call
  get_allowed_topology : String → Node → Call
  get_csi_driver_details : String → Call
  is_file_system_managed wait_for_volume_attachment_meta : String → Call
  get_pre_mount_command get_pre_resize_command :
      String → PersistentVolume → Option VolumeAttachment → Call
  get_pv : String → Call
  list_volume_attachments : String → Call
  create_volume_attachment : VolumeAttachment → Call
  create_job : Job → Call
  -- a timer of so many nanoseconds
  sleep : ℕ → Call
  fetch_disk_info : String → String → Call

abbrev pub History : Type 0
History = List Call

abbrev pub Action : Type 0 → Type 0 → Type 0
Action R A = Exec Call R A

-- The call stands in the history.
abbrev pub Made : Call → History → Type 0
Made c [] = ⊥
Made c (d ∷ h) = (d ≡ c) ⊎ Made c h

pub record Api : Type 0 where
  pub list_disk_configs : History → Option String → Result ApiError (List DiskConfig)
  pub get_disk_config : History → String → String → Result ApiError DiskConfig
  pub update_disk_config_status : History → DiskConfig → Result ApiError (Unit {0})
  pub get_storage_class : History → String → Result ApiError StorageClass
  pub list_storage_classes : History → Result ApiError (List StorageClass)
  pub create_storage_class : History → StorageClass → Result ApiError (Unit {0})
  pub update_storage_class : History → StorageClass → Result ApiError (Unit {0})
  pub get_node : History → String → Result ApiError Node
  pub get_pvc : History → String → String → Result ApiError Pvc
  pub list_pvcs : History → String → String → String → Result ApiError (List Pvc)
  pub create_pvc : History → Pvc → Result ApiError (Unit {0})
  pub update_pvc : History → Pvc → Result ApiError (Unit {0})
  pub get_pod : History → String → String → Result ApiError Pod
  pub list_pods : History → String → String → String → Result ApiError (List Pod)
  pub delete_pod : History → Pod → Result ApiError (Unit {0})
  pub get_job : History → String → String → Result ApiError Job
  pub delete_job : History → Job → Result ApiError (Unit {0})
  pub create_secret : History → String → String → Result ApiError (Unit {0})
  -- EventService.SendNormal and SendWarning (pkg/utils/event.go)
  pub send_event : History → Event → Result String (Unit {0})
  -- the creation of an Event object with this name
  pub create_event : History → String → Event → Result ApiError (Unit {0})
  -- drivers.GetDriver: the provisioners that have a driver.
  pub has_driver : String → Bool
  pub is_storage_class_valid : History → String → StorageClass → Result String Bool
  pub get_pvc_stub : History → String → String → String → String → Result String Pvc
  pub get_allowed_topology : History → String → Node → Result String (List TopologyTerm)
  pub get_csi_driver_details : History → String → Result String (String × Map String)
  pub is_file_system_managed : History → String → Result String Bool
  pub wait_for_volume_attachment_meta : History → String → Result String String
  pub get_pre_mount_command :
      History → String → PersistentVolume → Option VolumeAttachment → Result String String
  pub get_pre_resize_command :
      History → String → PersistentVolume → Option VolumeAttachment → Result String String
  pub get_pv : History → String → Result ApiError PersistentVolume
  -- the attachments of the volume with this name
  pub list_volume_attachments : History → String → Result ApiError (List VolumeAttachment)
  pub create_volume_attachment : History → VolumeAttachment → Result ApiError (Unit {0})
  pub create_job : History → Job → Result ApiError (Unit {0})
  -- sigs.k8s.io/yaml: Unmarshal into a Job and into a Container
  pub decode_job : String → Result String Job
  pub decode_container : String → Result String Container
  -- labels.NewRequirement accepts the key and the value.
  pub is_requirement : String → String → Bool
  -- controllerutil's ContainsFinalizer, AddFinalizer and RemoveFinalizer
  pub contains_finalizer : List String → String → Bool
  pub add_finalizer : List String → String → List String
  pub remove_finalizer : List String → String → List String
  -- time.Now(), in nanoseconds and as a text
  pub now : History → ℕ
  pub now_text : History → String
  -- namesgenerator.GetRandomName
  pub random_name : History → String

-- The documented behaviour of the three finalizer functions: they test, add and remove one member.
pub record HasFinalizers (api : Api) : Type 0 where
  pub contains_add :
      (l : List String) (f g : String)
      → api.contains_finalizer (api.add_finalizer l f) g
        ≡ (str_eq f g || api.contains_finalizer l g)
  pub contains_remove :
      (l : List String) (f g : String)
      → api.contains_finalizer (api.remove_finalizer l f) g
        ≡ (not (str_eq f g) && api.contains_finalizer l g)
  pub contains_one : (f g : String) → api.contains_finalizer (f ∷ []) g ≡ str_eq f g
