-- ===== src/Utils/HostJobs/Owned.antt =====
-- pkg/utils/kube.go: the owner of a rendered job.
use discoblock.Base.{String, Option, none, some, List, [], ◌∷◌, ◌≡◌, arith}
use discoblock.Kube.Objects.{OwnerReference, Job}
use discoblock.Kube.Exec.{Result, ok, err}
use discoblock.Utils.HostJobs.{decode_named, owned, render_mount_job, render_resize_job}

owned-owners :
    (owner : OwnerReference) (r : Result String Job) (job : Job)
    → owned owner r ≡ ok job
    → job.owners ≡ owner ∷ []
owned-owners owner (ok j) job e = ground (arith)
owned-owners owner (err m) job e = ground arith

decode_named-owners :
    (decode : String → Result String Job) (owner : OwnerReference) (template : String → String)
    (name : Option String) (job : Job)
    → decode_named decode owner template name ≡ ok job
    → job.owners ≡ owner ∷ []
decode_named-owners decode owner template none job e = ground arith
decode_named-owners decode owner template (some name) job e =
    owned-owners owner (decode (template name)) job e

module _ (decode : String → Result String Job) (now : String) where
  pub render_resize_job-owners :
      (pod_name pvc_name pv_name namespace node_name fs command volume_meta : String)
      (owner : OwnerReference) (job : Job)
      → render_resize_job decode now pod_name pvc_name pv_name namespace node_name fs command
          volume_meta owner
        ≡ ok job
      → job.owners ≡ owner ∷ []
  unfolding render_resize_job
  render_resize_job-owners pod_name pvc_name pv_name namespace node_name fs command volume_meta
        owner job e =
      decode_named-owners decode owner _ _ job e

  pub render_mount_job-owners :
      (pod_name pvc_name pv_name namespace node_name fs mount_point : String)
      (container_ids : List String) (command volume_meta : String) (owner : OwnerReference)
      (job : Job)
      → render_mount_job decode now pod_name pvc_name pv_name namespace node_name fs mount_point
          container_ids command volume_meta owner
        ≡ ok job
      → job.owners ≡ owner ∷ []
  unfolding render_mount_job
  render_mount_job-owners pod_name pvc_name pv_name namespace node_name fs mount_point container_ids
        command volume_meta owner job e =
      decode_named-owners decode owner _ _ job e
