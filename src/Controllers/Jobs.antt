-- ===== src/Controllers/Jobs.antt =====
-- controllers/job_controller.go: JobReconciler.
pub mod Deletes
pub mod Panics
use discoblock.Base.{
  ℕ, ◌==◌, String, ◌⧺◌, Bool, true, false, not, ◌&&◌, ◌||◌, Option, none, some, List, [], ◌∷◌,
  if◌then◌else◌, label, str_eq,
}
use discoblock.Kube.Objects.{Meta, Job, Pod, Pvc}
use discoblock.Kube.Exec.{
  Result, ok, err, pure, return, crash, attempt, call, for_each, ◌>>=◌, ◌>>◌,
}
use discoblock.Kube.Api.{
  Api, Action, ApiError, Call, Event, Related, reference, is_not_found, message,
}
use discoblock.Controllers.Outcome.{Outcome, success, failure}

-- `batchv1.Job{}`
abbrev pub empty_job : Job
empty_job = record {
  meta = record {
    name = "";
    namespace = "";
    uid = "";
    resource_version = "";
    generation = 0;
    labels = [];
    annotations = [];
    finalizers = [];
    owners = [];
    created = 0;
    deleted = none;
  };
  succeeded = 0;
  completed = none;
}

unfoldable pub has_succeeded : Job → Bool
has_succeeded job = job.succeeded == 1

-- the claim that an event is related to: a nil pointer where it was not found
abbrev pub pointer : Option Pvc → Related
pointer none = Related.nil_object
pointer (some pvc) = Related.object (reference pvc.meta)

abbrev pub capacity_text : Option Pvc → String
capacity_text none = "?"
capacity_text (some pvc) = pvc.capacity

-- the two events of a finished operation
unfoldable pub job_event : Bool → String → String → String → Pod → Option Pvc → Event
job_event succeeded namespace operation pvc_name pod pvc = record {
  warning = not succeeded;
  namespace = namespace;
  reporter = "Discoblocks";
  action = "PVC Monitor";
  reason =
      (if succeeded then "New capacity of " else "Failed to apply new capacity of ")
      ⧺ pvc_name
      ⧺ ": "
      ⧺ capacity_text pvc;
  note = "Operation finished: " ⧺ operation;
  regarding = reference pod.meta;
  related = pointer pvc;
}

module _ (api : Api) where
  -- The event service asks a related object for its UID: on a nil pointer in the interface it panics.
  -- An error of the service is logged.
  abbrev deliver : Event → Related → Action Outcome (Unit {0})
  deliver event Related.nil_object = crash
  deliver event related =
      call (Call.send_event event) (λ h. api.send_event h event) >>= λ _. pure tt

  abbrev on_pvc : String → String → Result ApiError Pvc → Action Outcome (Option Pvc)
  on_pvc namespace name (ok pvc) = pure (some pvc)
  on_pvc namespace name (err e) =
      if is_not_found e
      then pure none
      else return (failure ("failed to fetch PVC " ⧺ namespace ⧺ "/" ⧺ name ⧺ ": " ⧺ message e))

  abbrev on_pod :
      Job → String → String → String → String → Result ApiError Pod → Action Outcome (Unit {0})
  on_pod job namespace operation pod_name pvc_name (err e) =
      if is_not_found e
      then pure tt
      else return (failure ("failed to fetch pod " ⧺ namespace ⧺ "/" ⧺ pod_name ⧺ ": " ⧺ message e))
  on_pod job namespace operation pod_name pvc_name (ok pod) = do
    answer ← call (Call.get_pvc namespace pvc_name) (λ h. api.get_pvc h namespace pvc_name)
    pvc ← on_pvc namespace pvc_name answer
    let event = job_event (has_succeeded job) namespace operation pvc_name pod pvc
    deliver event event.related

  -- the events about a job's operation
  unfoldable pub report_job : String → Job → Action Outcome (Unit {0})
  unfolding has_succeeded job_event
  report_job namespace job = do
    let operation = label job.annotations "discoblocks/operation"
    let pod_name = label job.annotations "discoblocks/pod"
    let pvc_name = label job.annotations "discoblocks/pvc"
    if str_eq operation "" || str_eq pod_name "" || str_eq pvc_name ""
        then pure tt
        else call (Call.get_pod namespace pod_name) (λ h. api.get_pod h namespace pod_name)
          >>= λ answer. on_pod job namespace operation pod_name pvc_name answer

  abbrev on_deleted_pod : String → Pod → Result ApiError (Unit {0}) → Action Outcome (Unit {0})
  on_deleted_pod namespace pod (ok _) = pure tt
  on_deleted_pod namespace pod (err e) =
      if is_not_found e
      then pure tt
      else return
          (failure ("failed to delete Pod " ⧺ namespace ⧺ "/" ⧺ pod.name ⧺ ": " ⧺ message e))

  unfoldable pub delete_one_pod : String → Pod → Action Outcome (Unit {0})
  delete_one_pod namespace pod = do
    answer ← call (Call.delete_pod pod) (λ h. api.delete_pod h pod)
    on_deleted_pod namespace pod answer

  abbrev on_deleted_job : String → Job → Result ApiError (Unit {0}) → Outcome
  on_deleted_job namespace job (ok _) = success
  on_deleted_job namespace job (err e) =
      if is_not_found e
      then success
      else failure ("failed to delete Job " ⧺ namespace ⧺ "/" ⧺ job.name ⧺ ": " ⧺ message e)

  -- from the label selector on: the job's pods, then the job
  unfoldable pub delete_all : String → String → Job → Action Outcome Outcome
  delete_all name namespace job = do
    if api.is_requirement "job-name" name then pure tt else return success
    pods ←
        attempt (Call.list_pods namespace "job-name" name)
          (λ h. api.list_pods h namespace "job-name" name)
          λ e. return (failure ("failed to list Jobs: " ⧺ message e))
    for_each pods (delete_one_pod namespace)
    answer ← call (Call.delete_job job) (λ h. api.delete_job h job)
    pure (on_deleted_job namespace job answer)

  unfoldable pub on_job : String → String → Job → Action Outcome Outcome
  on_job name namespace job =
      if str_eq job.uid ""
      then delete_all name namespace job
      else (report_job namespace job >>= λ _.
          if has_succeeded job then delete_all name namespace job else return success)

  -- A job that is gone is handled as the zero value.
  abbrev found_or_empty : String → String → Result ApiError Job → Action Outcome Job
  found_or_empty name namespace (ok job) = pure job
  found_or_empty name namespace (err e) =
      if is_not_found e
      then pure empty_job
      else return (failure ("failed to fetch job " ⧺ namespace ⧺ "/" ⧺ name ⧺ ": " ⧺ message e))

  unfoldable pub reconcile : String → String → Action Outcome Outcome
  reconcile name namespace = do
    answer ← call (Call.get_job namespace name) (λ h. api.get_job h namespace name)
    job ← found_or_empty name namespace answer
    on_job name namespace job
