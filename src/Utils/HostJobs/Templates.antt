-- ===== src/Utils/HostJobs/Templates.antt =====
-- pkg/utils/kube.go: the templates of the sidecars and of the host jobs.
use discoblock.Base.{String, ◌⧺◌, List, [], ◌∷◌}

-- a raw text of the source, by its lines
abbrev lines : List String → String
lines [] = ""
lines (l ∷ []) = l
lines (l ∷ rest) = l ⧺ "\n" ⧺ lines rest

abbrev pub metrics_template : String
metrics_template = lines (
    "name: discoblocks-metrics" ∷ "image: alpine:3.16" ∷ "command:" ∷ "- sh" ∷ "- -c" ∷ "- |"
    ∷ "  apk add patchelf ucspi-tcp &&" ∷ "  cp /bin/busybox /opt/discoblocks &&"
    ∷ "  cp -r /lib /opt/discoblocks &&"
    ∷ "  patchelf --set-interpreter /opt/discoblocks/lib/ld-musl-x86_64.so.1 /opt/discoblocks/busybox &&"
    ∷ "  trap exit SIGTERM ;"
    ∷ "  while true; do tcpserver -v -c 1 -D -P -R -H -t 3 -l 0 127.0.0.1 59100 df -P & c=$! wait $c; done"
    ∷ "securityContext:" ∷ "  privileged: false" ∷ "" ∷ [])

abbrev pub metrics_proxy_template : String → String → String
metrics_proxy_template namespace name = lines (
    "name: discoblocks-metrics-proxy"
    ∷ "image: nixery.dev/shell/frp"
    ∷ "command:"
    ∷ "- sh"
    ∷ "- -c"
    ∷ "- |"
    ∷ "  cat <<EOF > /tmp/frpc.ini"
    ∷ "  [common]"
    ∷ "  ; log_level = trace"
    ∷ "  disable_log_color = true"
    ∷ "  server_addr = discoblocks-proxy-service.kube-system.svc"
    ∷ "  server_port = 63535"
    ∷ "  login_fail_exit = true"
    ∷ "  pool_count = 1"
    ∷ "  use_encryption = true"
    ∷ "  health_check_timeout_s = 2"
    ∷ "  health_check_max_failed = 2"
    ∷ "  health_check_interval_s = 5"
    ∷ "  tls_enable = true"
    ∷ "  tls_cert_file = /etc/metrics-certs/tls.crt"
    ∷ "  tls_key_file = /etc/metrics-certs/tls.key"
    ∷ "  tls_trusted_ca_file = /etc/metrics-certs/ca.crt"
    ∷ ("  [" ⧺ namespace ⧺ "-" ⧺ name ⧺ "]")
    ∷ "  type = tcp"
    ∷ "  local_ip = 127.0.0.1"
    ∷ "  local_port = 59100"
    ∷ "  remote_port = 0"
    ∷ "  EOF"
    ∷ "  trap exit SIGTERM ;"
    ∷ "  while true; do frpc -c /tmp/frpc.ini & c=$! wait $c; done"
    ∷ "securityContext:"
    ∷ "  privileged: false"
    ∷ "volumeMounts:"
    ∷ "- mountPath: /etc/metrics-certs"
    ∷ "  name: discoblocks-metrics-cert"
    ∷ "  readOnly: true"
    ∷ ""
    ∷ [])

abbrev pub host_job_template :
    String
    → String
    → String
    → String
    → String
    → String
    → String
    → String
    → String
    → String
    → String
    → String
    → String
host_job_template job_name namespace operation pod_name pvc_name node_name mount_point container_ids
      pv_name fs volume_meta command =
    lines (
      "apiVersion: batch/v1"
      ∷ "kind: Job"
      ∷ "metadata:"
      ∷ ("  name: \"" ⧺ job_name ⧺ "\"")
      ∷ ("  namespace: \"" ⧺ namespace ⧺ "\"")
      ∷ "  labels:"
      ∷ "    app: discoblocks"
      ∷ "  annotations:"
      ∷ ("    discoblocks/operation: \"" ⧺ operation ⧺ "\"")
      ∷ ("    discoblocks/pod: \"" ⧺ pod_name ⧺ "\"")
      ∷ ("    discoblocks/pvc: \"" ⧺ pvc_name ⧺ "\"")
      ∷ "spec:"
      ∷ "  template:"
      ∷ "    spec:"
      ∷ "      hostPID: true"
      ∷ ("      nodeName: \"" ⧺ node_name ⧺ "\"")
      ∷ "      containers:"
      ∷ "      - name: mount"
      ∷ "        image: nixery.dev/shell/gawk/gnugrep/gnused/coreutils-full/cri-tools/docker-client/nerdctl/nvme-cli"
      ∷ "        env:"
      ∷ "        - name: MOUNT_POINT"
      ∷ ("          value: \"" ⧺ mount_point ⧺ "\"")
      ∷ "        - name: CONTAINER_IDS"
      ∷ ("          value: \"" ⧺ container_ids ⧺ "\"")
      ∷ "        - name: PVC_NAME"
      ∷ ("          value: \"" ⧺ pvc_name ⧺ "\"")
      ∷ "        - name: PV_NAME"
      ∷ ("          value: \"" ⧺ pv_name ⧺ "\"")
      ∷ "        - name: FS"
      ∷ ("          value: \"" ⧺ fs ⧺ "\"")
      ∷ "        - name: VOLUME_ATTACHMENT_META"
      ∷ ("          value: \"" ⧺ volume_meta ⧺ "\"")
      ∷ "        command:"
      ∷ "        - bash"
      ∷ "        - -exc"
      ∷ "        - |"
      ∷ ("          " ⧺ command)
      ∷ "        volumeMounts:"
      ∷ "        - mountPath: /run/containerd/containerd.sock"
      ∷ "          name: containerd-socket"
      ∷ "          readOnly: true"
      ∷ "        - mountPath: /var/run/docker.sock"
      ∷ "          name: docker-socket"
      ∷ "          readOnly: true"
      ∷ "        - mountPath: /host"
      ∷ "          name: host"
      ∷ "        securityContext:"
      ∷ "          privileged: true"
      ∷ "      restartPolicy: Never"
      ∷ "      volumes:"
      ∷ "       - hostPath:"
      ∷ "          path: /run/containerd/containerd.sock"
      ∷ "         name: containerd-socket"
      ∷ "       - hostPath:"
      ∷ "          path: /var/run/docker.sock"
      ∷ "         name: docker-socket"
      ∷ "       - hostPath:"
      ∷ "          path: /"
      ∷ "         name: host"
      ∷ "  backoffLimit: 0"
      ∷ "  ttlSecondsAfterFinished: 86400"
      ∷ ""
      ∷ [])

abbrev pub mount_command_template : String → String
mount_command_template pre_mount_command = lines (
    pre_mount_command
    ∷ "DEV_MAJOR=$(chroot /host nsenter --target 1 --mount lsblk -lp | grep ${DEV} | awk '{print $2}'  | awk '{split($0,a,\":\"); print a[1]}') &&"
    ∷ "DEV_MINOR=$(chroot /host nsenter --target 1 --mount lsblk -lp | grep ${DEV} | awk '{print $2}'  | awk '{split($0,a,\":\"); print a[2]}') &&"
    ∷ "export LD_LIBRARY_PATH=/opt/discoblocks/lib &&" ∷ "for CONTAINER_ID in ${CONTAINER_IDS}; do"
    ∷ "\tPID=$(docker inspect -f '{{.State.Pid}}' ${CONTAINER_ID} || nerdctl -n k8s.io inspect -f '{{.State.Pid}}' ${CONTAINER_ID} || crictl --runtime-endpoint unix:///run/containerd/containerd.sock inspect --output go-template --template '{{.info.pid}}' ${CONTAINER_ID}) &&"
    ∷ "\tchroot /host nsenter --target ${PID} --mount /opt/discoblocks/busybox mount | grep \"${DEV} on ${MOUNT_POINT}\" || ("
    ∷ "\t\tchroot /host nsenter --target ${PID} --mount /opt/discoblocks/busybox mkdir -p $(dirname ${DEV}) ${MOUNT_POINT} &&"
    ∷ "\t\t(chroot /host nsenter --target ${PID} --pid --mount /opt/discoblocks/busybox mknod ${DEV} b ${DEV_MAJOR} ${DEV_MINOR} ||:) &&"
    ∷ "\t\tchroot /host nsenter --target ${PID} --mount /opt/discoblocks/busybox mount ${DEV} ${MOUNT_POINT}"
    ∷ "\t)" ∷ "done" ∷ [])

abbrev pub resize_command_template : String → String
resize_command_template pre_resize_command = lines (
    pre_resize_command
    ∷ "chroot /host nsenter --target 1 --mount mkdir -p /tmp/discoblocks${DEV} &&"
    ∷ "chroot /host nsenter --target 1 --mount mount ${DEV} /tmp/discoblocks${DEV} &&"
    ∷ "trap \"chroot /host nsenter --target 1 --mount umount /tmp/discoblocks${DEV}\" EXIT &&" ∷ "("
    ∷ "\t([ \"${FS}\" = \"ext3\" ] && chroot /host nsenter --target 1 --mount resize2fs ${DEV}) ||"
    ∷ "\t([ \"${FS}\" = \"ext4\" ] && chroot /host nsenter --target 1 --mount resize2fs ${DEV}) ||"
    ∷ "\t([ \"${FS}\" = \"xfs\" ] && chroot /host nsenter --target 1 --mount xfs_growfs -d ${DEV}) ||"
    ∷ "\t([ \"${FS}\" = \"btrfs\" ] && chroot /host nsenter --target 1 --mount btrfs filesystem resize max ${DEV}) ||"
    ∷ "\techo unsupported file-system $FS" ∷ ")" ∷ [])
