-- ===== src/Mutator/Patch.antt =====
-- mutators/pod_mutator.go: what Handle does after its loop: the sidecars, the volume mounts, the secret
-- and the patch.
use discoblock.Base.{
  ℕ, zero, suc, String, ◌⧺◌, Bool, false, not, List, [], ◌∷◌, ◌++◌, map, Map, if◌then◌else◌, str_eq,
}
use discoblock.Kube.Objects.{Pod, Container, Volume, VolumeMount, host_path, secret, empty_dir}
use discoblock.Kube.Exec.{Result, ok, err, pure, return, call, ◌>>=◌, ◌>>◌}
use discoblock.Kube.Api.{Api, Action, ApiError, Call, message, is_already_exists}
use discoblock.Utils.HostJobs.{render_metrics_sidecar, render_metrics_proxy_sidecar}
use discoblock.Mutator.Common.{
  Request, Response, allowed, errored, patched, Library, internal_error,
}

-- the volumes of a sidecar's mounts
abbrev pub host_volume : VolumeMount → Volume
host_volume vm = record { name = vm.name; source = host_path vm.mount_path }

abbrev pub secret_volume : VolumeMount → Volume
secret_volume vm = record { name = vm.name; source = secret vm.name }

abbrev pub tools_volume : Volume
tools_volume = record { name = "discoblocks-tools"; source = empty_dir }

abbrev pub add_sidecar : Pod → Container → (VolumeMount → Volume) → Pod
add_sidecar pod sidecar volume = record pod {
  containers = pod.containers ++ sidecar ∷ [];
  volumes = pod.volumes ++ map volume sidecar.volume_mounts;
}

abbrev pub add_volume : Volume → Pod → Pod
add_volume volume pod = record pod { volumes = pod.volumes ++ volume ∷ [] }

abbrev pub schedule : Pod → Pod
schedule pod = record pod { scheduler_name = "discoblocks-scheduler" }

abbrev pub tools_mount : Container → VolumeMount
tools_mount c = record {
  name = "discoblocks-tools";
  mount_path = "/opt/discoblocks";
  read_only = not (str_eq c.name "discoblocks-metrics");
}

abbrev pub disk_mount : String × String → VolumeMount
disk_mount (name, mp) = record { name = name; mount_path = mp; read_only = false }

abbrev pub is_proxy : Container → Bool
is_proxy c = str_eq c.name "discoblocks-metrics-proxy"

-- The disks are mounted in every container but the proxy.
abbrev pub mount_disks : List (String × String) → Container → Container
mount_disks disks c = record c {
  volume_mounts =
      c.volume_mounts ++ tools_mount c ∷ (if is_proxy c then [] else map disk_mount disks);
}

module _ (lib : Library) where
  -- the loop over the containers from the i-th on
  unfoldable pub mount_all : Map String → ℕ → List Container → List Container
  mount_all volumes i [] = []
  mount_all volumes i (c ∷ cs) = mount_disks (lib.visit i volumes) c ∷ mount_all volumes (suc i) cs

  abbrev pub mounted : Map String → Pod → Pod
  mounted volumes pod = record pod { containers = mount_all volumes zero pod.containers }

  module _ (api : Api) where
    abbrev pub on_secret : Result ApiError (Unit {0}) → Action Response (Unit {0})
    on_secret (ok _) = pure tt
    on_secret (err e) =
        if is_already_exists e
        then pure tt
        else return (errored internal_error ("unable to create Secret: " ⧺ message e))

    abbrev pub on_marshaled : Request → Result String String → Action Response Response
    on_marshaled request (ok text) = pure (patched request.raw text)
    on_marshaled request (err e) = return (errored internal_error ("unable to marshal pod: " ⧺ e))

    -- from the secret on
    unfoldable pub respond : Request → Pod → Action Response Response
    unfolding ◌>>=◌
    respond request pod = do
      answer ←
          call (Call.create_secret pod.namespace "discoblocks-metrics-cert")
            λ h. api.create_secret h pod.namespace "discoblocks-metrics-cert"
      on_secret answer
      on_marshaled request (lib.marshal_pod pod)

    abbrev pub sidecar_or : String → Result String Container → Action Response Container
    sidecar_or reason (ok c) = pure c
    sidecar_or reason (err e) = return (allowed reason)

    -- The pod with both sidecars; the proxy is named after the pod.
    abbrev pub equip : Pod → Container → Container → Pod
    equip pod sidecar proxy =
        add_volume tools_volume
          (add_sidecar (add_sidecar (schedule pod) sidecar host_volume) proxy secret_volume)

    -- from the name of the scheduler on
    unfoldable pub patch : Request → Pod → Map String → Action Response Response
    unfolding mount_all respond ◌>>=◌
    patch request pod volumes = do
      sidecar ←
          sidecar_or "Metrics sidecar template invalid"
            (render_metrics_sidecar api.decode_container)
      proxy ←
          sidecar_or "Metrics Proxy sidecar template invalid"
            (render_metrics_proxy_sidecar api.decode_container pod.name pod.namespace)
      respond request (mounted volumes (equip pod sidecar proxy))
