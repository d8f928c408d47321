-- ===== src/Utils/HostJobs.antt =====
-- pkg/utils/kube.go: the metrics sidecars and the host jobs. The YAML decoder is a parameter.
pub mod Owned
pub mod Templates
use discoblock.Base.{
  String, ◌⧺◌, ◌==◌, code, Option, none, some, true, List, [], ◌∷◌, if◌then◌else◌, str_eq,
}
use discoblock.Kube.Objects.{OwnerReference, Container, Job}
use discoblock.Kube.Exec.{Result, ok, err}
use discoblock.Utils.Names.{render_resource_name}
use discoblock.Utils.HostJobs.Templates.{
  metrics_template, metrics_proxy_template, host_job_template, mount_command_template,
  resize_command_template,
}

-- hostCommandPrefix
abbrev host_command_prefix : String
host_command_prefix = "\n          "

-- hostCommandReplacePattern.ReplaceAll with hostCommandPrefix
unfoldable pub indent : String → String
indent String.[] = String.[]
indent (String.◌∷◌ c s) =
    let rest = indent s in if code c == 10 then host_command_prefix ⧺ rest else String.◌∷◌ c rest

abbrev pub then_run : String → String
then_run command = if str_eq command "" then command else command ⧺ " && "

abbrev pub join : List String → String
join [] = ""
join (s ∷ []) = s
join (s ∷ rest) = s ⧺ " " ⧺ join rest

abbrev pub or_error : {A : Type 0} → String → Result String A → Result String A
or_error context (ok a) = ok a
or_error context (err e) = err (context ⧺ e)

-- RenderMetricsSidecar
unfoldable pub render_metrics_sidecar : (String → Result String Container) → Result String Container
render_metrics_sidecar decode = or_error "unable to unmarshal container: " (decode metrics_template)

unfoldable pub render_metrics_proxy_sidecar :
    (String → Result String Container) → String → String → Result String Container
render_metrics_proxy_sidecar decode name namespace =
    or_error "unable to unmarshal container: " (decode (metrics_proxy_template namespace name))

abbrev pub owned : OwnerReference → Result String Job → Result String Job
owned owner (ok job) = ok (record job { meta = record (job.meta) { owners = owner ∷ [] } })
owned owner (err e) = err ("unable to unmarshal job: " ⧺ e)

-- What both jobs do about a template that takes the job's name.
abbrev pub decode_named :
    (String → Result String Job)
    → OwnerReference
    → (String → String)
    → Option String
    → Result String Job
decode_named decode owner template none =
    err "unable to render resource name: missing name elements"
decode_named decode owner template (some job_name) = owned owner (decode (template job_name))

-- `now` is the text of time.Now().
module _ (decode : String → Result String Job) (now : String) where
  unfoldable pub render_mount_job :
      String
      → String
      → String
      → String
      → String
      → String
      → String
      → List String
      → String
      → String
      → OwnerReference
      → Result String Job
  unfolding indent
  render_mount_job pod_name pvc_name pv_name namespace node_name fs mount_point container_ids
        pre_mount_command volume_meta owner =
      decode_named decode owner
        (λ job_name.
          host_job_template job_name namespace "mount" pod_name pvc_name node_name mount_point
            (join container_ids) pv_name fs volume_meta
            (indent (mount_command_template (then_run pre_mount_command))))
        (render_resource_name true (now ∷ pvc_name ∷ namespace ∷ []))

  unfoldable pub render_resize_job :
      String
      → String
      → String
      → String
      → String
      → String
      → String
      → String
      → OwnerReference
      → Result String Job
  unfolding indent
  render_resize_job pod_name pvc_name pv_name namespace node_name fs pre_resize_command volume_meta
        owner =
      decode_named decode owner
        (λ job_name.
          host_job_template job_name namespace "resize" pod_name pvc_name node_name "" "" pv_name fs
            volume_meta (indent (resize_command_template (then_run pre_resize_command))))
        (render_resource_name true (now ∷ pvc_name ∷ namespace ∷ []))
