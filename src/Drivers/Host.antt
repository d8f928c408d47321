-- ===== src/Drivers/Host.antt =====
-- pkg/drivers/drivers.go: Driver, the bridge to the WASI modules.
use discoblock.Base.{
  String, ◌⧺◌, Bool, true, false, Option, none, some, List, [], ◌∷◌, Map, str_eq, if◌then◌else◌,
  ◌||◌,
}
use discoblock.Kube.Objects.{
  StorageClass, Node, Pvc, PersistentVolume, VolumeAttachment, TopologyTerm,
}
use discoblock.Kube.Exec.{Result, ok, err}

-- github.com/wasmerio/wasmer-go, a parameter: `S` is the state of an instance and its environment.
-- Reading an output may take what was read out of the state.
pub record Wasmer (S : Type 0) : Type 0 where
  pub finalize : Map String → Result String S
  pub generate_import_object : S → Result String S
  pub new_instance : S → Result String S
  pub get_wasi_start_function : S → Result String (Unit {0})
  pub start : S → Result String S
  pub get_raw_function : S → String → Result String (Unit {0})
  pub run : S → String → Result String S
  pub read_stderr : S → String × S
  pub read_stdout : S → String × S

-- encoding/json on the Kubernetes types, a parameter
pub record Json : Type 0 where
  pub encode_class : StorageClass → Result String String
  pub encode_node : Node → Result String String
  pub encode_volume : PersistentVolume → Result String String
  pub encode_attachment : VolumeAttachment → Result String String
  pub decode_terms : String → Result String (List TopologyTerm)
  pub decode_pvc : String → Result String Pvc
  pub decode_labels : String → Result String (Map String)

-- `fmt.Errorf("<context>: %w", err)` on the error of a step
abbrev pub wrap : {A : Type 0} → String → Result String A → Result String A
wrap context (ok a) = ok a
wrap context (err e) = err (context ⧺ ": " ⧺ e)

infixl 10 ◌>>=◌ ◌>>◌
abbrev pub ◌>>=◌ : {A B : Type 0} → Result String A → (A → Result String B) → Result String B
ok a >>= f = f a
err e >>= f = err e

abbrev pub ◌>>◌ : {A B : Type 0} → Result String A → Result String B → Result String B
m >> n = m >>= λ _. n

-- strconv.ParseBool, with what its error says after the quoted text left out
unfoldable pub parse_bool : String → Result String Bool
parse_bool text =
    if str_eq text "1"
      || str_eq text "t"
      || str_eq text "T"
      || str_eq text "TRUE"
      || str_eq text "true"
      || str_eq text "True"
    then ok true
    else if str_eq text "0"
        || str_eq text "f"
        || str_eq text "F"
        || str_eq text "FALSE"
        || str_eq text "false"
        || str_eq text "False"
    then ok false
    else err "strconv.ParseBool: invalid syntax"

module _ {S : Type 0} (wasmer : Wasmer S) where
  unfoldable pub init : Map String → Result String S
  init envs = do
    built ← wrap "unable to build module" (wasmer.finalize envs)
    linked ← wrap "unable to generate imports" (wasmer.generate_import_object built)
    instance' ← wrap "unable to create instance" (wasmer.new_instance linked)
    wrap "unable to get start" (wasmer.get_wasi_start_function instance')
    wrap "unable to start instance" (wasmer.start instance')

  -- The steps that every method repeats: find the export, call it, and fail on what it complains of.
  unfoldable pub call_export : String → S → Result String S
  call_export name s = do
    wrap ("unable to find " ⧺ name) (wasmer.get_raw_function s name)
    s' ← wrap ("unable to call " ⧺ name) (wasmer.run s name)
    let (complaint, rest) = wasmer.read_stderr s'
    if str_eq complaint "" then ok rest else err ("function error " ⧺ name ⧺ ": " ⧺ complaint)

  -- a new instance with one export called
  unfoldable pub start_export : String → Map String → Result String S
  start_export name envs = do s ← wrap "unable to init instance" (init envs); call_export name s

  module _ (json : Json) where
    unfoldable pub is_storage_class_valid : StorageClass → Result String Bool
    is_storage_class_valid sc = do
      raw ← wrap "unable to parse StorageClass" (json.encode_class sc)
      s ← start_export "IsStorageClassValid" (("STORAGE_CLASS_JSON", raw) ∷ [])
      wrap "unable to parse output" (parse_bool (wasmer.read_stdout s).0)

    -- No output is no terms.
    unfoldable pub read_terms : String → Result String (List TopologyTerm)
    read_terms text =
        if str_eq text "" then ok [] else wrap "unable to parse output" (json.decode_terms text)

    unfoldable pub get_storage_class_allowed_topology : Node → Result String (List TopologyTerm)
    get_storage_class_allowed_topology node = do
      raw ← wrap "unable to parse Node" (json.encode_node node)
      s ← start_export "GetStorageClassAllowedTopology" (("NODE_JSON", raw) ∷ [])
      read_terms (wasmer.read_stdout s).0

    unfoldable pub get_pvc_stub : String → String → String → Result String Pvc
    get_pvc_stub name namespace class_name = do
      s ← start_export "GetPVCStub" (
          ("PVC_NAME", name)
          ∷ ("PVC_NAMESACE", namespace)
          ∷ ("STORAGE_CLASS_NAME", class_name)
          ∷ [])
      wrap "unable to parse output" (json.decode_pvc (wasmer.read_stdout s).0)

    -- Two exports of one instance: the second's output is read after the first's.
    unfoldable pub get_csi_driver_details : Result String (String × Map String)
    get_csi_driver_details = do
      s ← start_export "GetCSIDriverNamespace" []
      let (namespace, s') = wasmer.read_stdout s
      s'' ← call_export "GetCSIDriverPodLabels" s'
      labels ←
          wrap "unable to parse output GetCSIDriverPodLabels"
            (json.decode_labels (wasmer.read_stdout s'').0)
      ok (namespace, labels)

    encode_pointer : Option VolumeAttachment → Result String String
    encode_pointer none = ok "null"
    encode_pointer (some va) = wrap "unable to parse VolumeAttachment" (json.encode_attachment va)

    -- `json.Marshal` of a nil pointer is the text null.
    unfoldable pub get_pre_mount_command :
        PersistentVolume → Option VolumeAttachment → Result String String
    unfolding encode_pointer
    get_pre_mount_command pv va = do
      raw_pv ← wrap "unable to parse PersistentVolume" (json.encode_volume pv)
      raw_va ← encode_pointer va
      s ←
          start_export "GetPreMountCommand"
            (("PERSISTENT_VOLUME_JSON", raw_pv) ∷ ("VOLUME_ATTACHMENT_JSON", raw_va) ∷ [])
      ok (wasmer.read_stdout s).0

    encode_if_set : Option VolumeAttachment → Result String String
    encode_if_set none = ok ""
    encode_if_set (some va) = wrap "unable to parse VolumeAttachment" (json.encode_attachment va)

    unfoldable pub get_pre_resize_command :
        PersistentVolume → Option VolumeAttachment → Result String String
    unfolding encode_if_set
    get_pre_resize_command pv va = do
      raw_pv ← wrap "unable to parse PersistentVolume" (json.encode_volume pv)
      raw_va ← encode_if_set va
      s ←
          start_export "GetPreResizeCommand"
            (("PERSISTENT_VOLUME_JSON", raw_pv) ∷ ("VOLUME_ATTACHMENT_JSON", raw_va) ∷ [])
      ok (wasmer.read_stdout s).0

  unfoldable pub is_file_system_managed : Result String Bool
  is_file_system_managed = do
    s ← start_export "IsFileSystemManaged" []
    wrap "unable to parse output" (parse_bool (wasmer.read_stdout s).0)

  unfoldable pub wait_for_volume_attachment_meta : Result String String
  wait_for_volume_attachment_meta = do
    s ← start_export "WaitForVolumeAttachmentMeta" []
    ok (wasmer.read_stdout s).0
