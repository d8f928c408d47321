-- ===== src/Controllers/Jobs/Panics.antt =====
-- controllers/job_controller.go: the panics of Reconcile.
use discoblock.Base.{arith, String, true, Option, none, some, List, ◌≡◌, refl}
use discoblock.Kube.Objects.{Job, Pod, Pvc}
use discoblock.Kube.Exec.{Result, ok, err, Flow}
use discoblock.Kube.Exec.Returns.{
  Returns, Any, return_rules, Returns-then, Returns-told, Returns-if, Returns-pure, Returns-crash,
  Returns-return,
}
use discoblock.Kube.Api.{Api, ApiError, Call, Event, Related, is_not_found}
use discoblock.Controllers.Outcome.{Outcome}
use discoblock.Controllers.Jobs.{
  report_job, delete_one_pod, delete_all, on_job, job_event, found_or_empty, on_pod, on_pvc,
  deliver, on_deleted_pod, reconcile, pointer,
}

-- The server answers that a claim is not there.
abbrev pub ClaimGone : Api → Type 0
ClaimGone api =
    (h : List Call) × (ns : String) × (n : String) × (e : ApiError) × (api.get_pvc h ns n ≡ err e)
    × (is_not_found e ≡ true)

module _ (api : Api) where
  abbrev Safe : {A : Type 0} → (A → Type 0) → (List Call → Flow Outcome A × List Call) → Type 0
  Safe Q m = Returns (ClaimGone api) Any Q m

  on_pvc-Safe :
      (h : List Call) (namespace name : String) (r : Result ApiError Pvc)
      → api.get_pvc h namespace name ≡ r
      → Safe (λ pvc. pvc ≡ none → ClaimGone api) (on_pvc api namespace name r)
  on_pvc-Safe h namespace name (ok pvc) e = Returns-pure _ λ k. ground arith
  on_pvc-Safe h namespace name (err e) told =
      Returns-if _ _ _ (λ gone. Returns-pure _ λ _. (h, namespace, name, e, told, gone))
        (λ _. Returns-return _ tt)

  deliver-Safe :
      (event : Event) (related : Related)
      → (related ≡ Related.nil_object → ClaimGone api)
      → Safe Any (deliver api event related)
  deliver-Safe event Related.nil_object k = Returns-crash (k refl)
  deliver-Safe event Related.no_object k = search return_rules
  deliver-Safe event (Related.object o) k = search return_rules

  nil_is_none : (pvc : Option Pvc) → pointer pvc ≡ Related.nil_object → pvc ≡ none
  nil_is_none none e = refl
  nil_is_none (some pvc) e = ground arith

  on_pod-Safe :
      (job : Job) (namespace operation pod_name pvc_name : String) (r : Result ApiError Pod)
      → Safe Any (on_pod api job namespace operation pod_name pvc_name r)
  unfolding job_event
  on_pod-Safe job namespace operation pod_name pvc_name (err e) = search (return_rules)
  on_pod-Safe job namespace operation pod_name pvc_name (ok pod) =
      Returns-then _ _ _ (Returns-told _ _) λ r told.
        Returns-then _ _ _ (on_pvc-Safe told.0 namespace pvc_name r told.1)
          λ pvc gone. deliver-Safe _ _ λ e. gone (nil_is_none pvc e)

  report_job-Safe : (namespace : String) (job : Job) → Safe Any (report_job api namespace job)
  unfolding report_job
  report_job-Safe namespace job = search (return_rules, on_pod-Safe)

  on_deleted_pod-Safe :
      (namespace : String) (pod : Pod) (r : Result ApiError (Unit {0}))
      → Safe Any (on_deleted_pod api namespace pod r)
  on_deleted_pod-Safe namespace pod (ok u) = search return_rules
  on_deleted_pod-Safe namespace pod (err e) = search return_rules

  delete_one_pod-Safe :
      (namespace : String) (pod : Pod) → Safe Any (delete_one_pod api namespace pod)
  unfolding delete_one_pod
  delete_one_pod-Safe namespace pod = search (return_rules, on_deleted_pod-Safe)

  delete_all-Safe :
      (name namespace : String) (job : Job) → Safe Any (delete_all api name namespace job)
  unfolding delete_all
  delete_all-Safe name namespace job = search (return_rules, delete_one_pod-Safe) depth 9

  on_job-Safe : (name namespace : String) (job : Job) → Safe Any (on_job api name namespace job)
  unfolding on_job
  on_job-Safe name namespace job = search (return_rules, delete_all-Safe, report_job-Safe) depth 8

  found-Safe :
      (name namespace : String) (r : Result ApiError Job)
      → Safe Any (found_or_empty api name namespace r)
  found-Safe name namespace (ok job) = search return_rules
  found-Safe name namespace (err e) = search return_rules

  -- The JobReconciler panics only where the server answers that the claim of a job is not there.
  pub reconcile-Safe :
      (name namespace : String) → Returns (ClaimGone api) Any Any (reconcile api name namespace)
  unfolding reconcile
  reconcile-Safe name namespace = search (return_rules, found-Safe, on_job-Safe)
