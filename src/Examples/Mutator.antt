-- ===== src/Examples/Mutator.antt =====
-- mutators/pod_mutator.go: Handle at an API server with one object of each kind.
use discoblock.Base.{true, false, some, [], ◌≡◌, refl, label, put}
use discoblock.Kube.Exec.{ok, next}
use discoblock.Kube.Exec.Emits.{Emits}
use discoblock.Kube.Exec.Returns.{Returns}
use discoblock.Utils.Labels.{is_contains_all}
use discoblock.Utils.Names.{get_name_prefix, render_resource_name}
use discoblock.Utils.HostJobs.{render_metrics_sidecar, render_metrics_proxy_sidecar}
use discoblock.Mutator.Common.{Library, Request, patched}
use discoblock.Mutator.{handle}
use discoblock.Mutator.Claimed.{Writes}
use discoblock.Mutator.Writes.{handle-Writes}
use discoblock.Mutator.Mounts.{Visits}
use discoblock.Mutator.Steps.{ListsUnknown}
use discoblock.Mutator.Patched.{Answers}
use discoblock.Mutator.Answers.{handle-Answers}
use discoblock.Examples.World.{world, pod}

abbrev library : Library
library = record {
  decode_pod = λ raw. ok pod;
  marshal_pod = λ p. ok "pod";
  other = λ pattern i. pattern;
  by_creation = λ claims. claims;
  visit = λ n m. m;
  first_at = λ m mp. "";
  selector_error = λ k v. "";
  atoi_error = λ text. "";
}

library-Visits : Visits library
library-Visits = record { every = λ n m Q h. h }

abbrev request : Request
request = record { name = "nginx"; namespace = "default"; dry_run = some true; raw = "raw" }

handle-Writes_example : Emits (Writes library world request) (handle library world false request)
handle-Writes_example = handle-Writes library world false request (record { kept = λ P l all. all })

handle-Answers_example :
    Returns
      (ListsUnknown world)
      (Answers library world false request)
      (Answers library world false request)
      (handle library world false request)
handle-Answers_example = handle-Answers library world false request library-Visits

handle_runs : (handle library world false request []).0 ≡ next (patched "raw" "pod")
unfolding handle is_contains_all label get_name_prefix render_resource_name put
    render_metrics_sidecar render_metrics_proxy_sidecar
handle_runs = refl
