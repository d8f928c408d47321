-- ===== src/Drivers/StorageOs.antt =====
-- drivers/csi.storageos.com/main.go: the exports of the StorageOS driver.
use discoblock.Base.{String, not, ◌&&◌, ◌||◌, [], ◌∷◌, Map, label, str_eq, if◌then◌else◌}
use discoblock.Drivers.Program.{FastJson, Output, silent, print, pvc_stub}

module _ (json : FastJson) where
  unfoldable pub is_storage_class_valid : Map String → Output
  is_storage_class_valid env =
      let text = label env "STORAGE_CLASS_JSON" in
      if json.exists text "volumeBindingMode"
        && not (str_eq (json.get_string text ("volumeBindingMode" ∷ [])) "Immediate")
      then record { stdout = "false"; stderr = "only volumeBindingMode Immediate is supported" }
      else if not (json.exists text "allowVolumeExpansion")
          || not (json.get_bool text "allowVolumeExpansion")
      then record { stdout = "false"; stderr = "only allowVolumeExpansion true is supported" }
      else print "true"

unfoldable pub get_csi_driver_namespace : Output
get_csi_driver_namespace = print "storageos"

unfoldable pub get_csi_driver_pod_labels : Output
get_csi_driver_pod_labels =
    print "{ \"app\": \"storageos\", \"app.kubernetes.io/component\": \"csi\" }"

unfoldable pub get_pre_mount_command : Output
get_pre_mount_command =
    print
      "VOL=$(chroot /host nsenter --target 1 --mount sh -c \"grep ^ /dev/null /var/lib/storageos/state/*\" | grep ${PV_NAME} | awk '{split($0,a,\":\"); print a[1]}' | grep -oe \"v\\..*\\.json$\"| awk '{gsub(\".json\",\"\",$1); print $1}') &&\nchroot /host nsenter --target 1 --mount mkdir -p /var/lib/kubelet/plugins/kubernetes.io/csi/pv/${PV_NAME}/mount &&\nchroot /host nsenter --target 1 --mount mount /var/lib/storageos/volumes/${VOL} /var/lib/kubelet/plugins/kubernetes.io/csi/pv/${PV_NAME}/mount &&\nDEV=/${PV_NAME}"

unfoldable pub is_file_system_managed : Output
is_file_system_managed = print "true"

-- An export by its name; `none` of the others prints anything.
unfoldable pub run_export : FastJson → Map String → String → Output
unfolding is_storage_class_valid get_csi_driver_namespace get_csi_driver_pod_labels
    get_pre_mount_command is_file_system_managed
run_export json env name =
    if str_eq name "IsStorageClassValid"
    then is_storage_class_valid json env
    else if str_eq name "GetPVCStub"
    then pvc_stub env
    else if str_eq name "GetCSIDriverNamespace"
    then get_csi_driver_namespace
    else if str_eq name "GetCSIDriverPodLabels"
    then get_csi_driver_pod_labels
    else if str_eq name "GetPreMountCommand"
    then get_pre_mount_command
    else if str_eq name "IsFileSystemManaged"
    then is_file_system_managed
    else silent
