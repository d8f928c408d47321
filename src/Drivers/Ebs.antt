-- ===== src/Drivers/Ebs.antt =====
-- drivers/ebs.csi.aws.com/main.go: the exports of the EBS driver.
use discoblock.Base.{String, ◌⧺◌, code, not, ◌||◌, ◌==◌, [], ◌∷◌, Map, label, str_eq, if◌then◌else◌}
use discoblock.Drivers.Program.{FastJson, Output, silent, print, complain, pvc_stub}

-- `strings.ReplaceAll(s, "-", "")`
unfoldable pub drop_dashes : String → String
drop_dashes String.[] = String.[]
drop_dashes (String.◌∷◌ c s) =
    let rest = drop_dashes s in if code c == b'-' then rest else String.◌∷◌ c rest

module _ (json : FastJson) where
  unfoldable pub is_storage_class_valid : Map String → Output
  is_storage_class_valid env =
      let text = label env "STORAGE_CLASS_JSON" in
      if not (json.exists text "allowVolumeExpansion")
        || not (json.get_bool text "allowVolumeExpansion")
      then record { stdout = "false"; stderr = "only allowVolumeExpansion true is supported" }
      else print "true"

  unfoldable pub get_storage_class_allowed_topology : Map String → Output
  get_storage_class_allowed_topology env =
      let zone =
        json.get_string (label env "NODE_JSON")
          ("metadata" ∷ "labels" ∷ "topology.kubernetes.io/zone" ∷ []) in
      if str_eq zone ""
      then complain "metadata.labels.'topology.kubernetes.io/zone' not found"
      else print (
          "[{\n\t\"matchLabelExpressions\": [\n\t\t{\n\t\t\t\"key\": \"topology.kubernetes.io/zone\",\n\t\t\t\"values\": [ \""
          ⧺ zone ⧺ "\" ]\n\t\t}\n\t]\n}]")

  volume_handle : Map String → String
  volume_handle env =
      drop_dashes (
        json.get_string (label env "PERSISTENT_VOLUME_JSON") ("spec" ∷ "csi" ∷ "volumeHandle" ∷ []))

  unfoldable pub get_pre_mount_command : Map String → Output
  unfolding volume_handle
  get_pre_mount_command env =
      if str_eq (volume_handle env) ""
      then complain "spec.csi.volumeHandle not found"
      else print (
          "DEV=$(nvme list | grep "
          ⧺ volume_handle env
          ⧺ " | awk '{print $1}') &&\n(chroot /host nsenter --target 1 --mount mkfs.${FS} ${DEV} ||:)")

  unfoldable pub get_pre_resize_command : Map String → Output
  unfolding volume_handle
  get_pre_resize_command env =
      if str_eq (volume_handle env) ""
      then complain "spec.csi.volumeHandle not found"
      else print ("DEV=$(nvme list | grep " ⧺ volume_handle env ⧺ " | awk '{print $1}')")

unfoldable pub get_csi_driver_namespace : Output
get_csi_driver_namespace = print "kube-system"

unfoldable pub get_csi_driver_pod_labels : Output
get_csi_driver_pod_labels = print "{ \"app\": \"ebs-csi-controller\" }"

unfoldable pub is_file_system_managed : Output
is_file_system_managed = print "false"

-- An export by its name; WaitForVolumeAttachmentMeta prints nothing.
unfoldable pub run_export : FastJson → Map String → String → Output
unfolding is_storage_class_valid get_storage_class_allowed_topology get_csi_driver_namespace
    get_csi_driver_pod_labels get_pre_mount_command get_pre_resize_command is_file_system_managed
run_export json env name =
    if str_eq name "IsStorageClassValid"
    then is_storage_class_valid json env
    else if str_eq name "GetStorageClassAllowedTopology"
    then get_storage_class_allowed_topology json env
    else if str_eq name "GetPVCStub"
    then pvc_stub env
    else if str_eq name "GetCSIDriverNamespace"
    then get_csi_driver_namespace
    else if str_eq name "GetCSIDriverPodLabels"
    then get_csi_driver_pod_labels
    else if str_eq name "GetPreMountCommand"
    then get_pre_mount_command json env
    else if str_eq name "GetPreResizeCommand"
    then get_pre_resize_command json env
    else if str_eq name "IsFileSystemManaged"
    then is_file_system_managed
    else silent
