-- ===== src/Controllers/Pvc.antt =====
-- controllers/pvc_controller.go: PVCReconciler.Reconcile, which keeps the status of a DiskConfig.
pub mod Status
use discoblock.Base.{
  ℕ, String, ◌⧺◌, Bool, true, false, Option, none, some, List, ◌∷◌, [], if◌then◌else◌, str_eq,
  label,
}
use discoblock.Kube.Objects.{Condition, DiskConfig, Pvc}
use discoblock.Kube.Exec.{ok, err, Exec, pure, return, attempt, observe, ◌>>=◌, ◌>>◌}
use discoblock.Kube.Api.{Api, Action, ApiError, Call, is_not_found, message}
use discoblock.Controllers.Outcome.{Outcome, success, failure, again}
use discoblock.Controllers.Conditions.{phase_reason, delete_conditions, upsert_condition}

-- The condition that describes a claim; metav1.ConditionTrue is `true`.
unfoldable pub condition_of : ℕ → Pvc → Condition
condition_of now pvc = record {
  status = str_eq pvc.phase "Bound";
  kind = pvc.phase;
  observed_generation = pvc.generation;
  transition = now;
  reason = phase_reason;
  message = pvc.name;
}

abbrev pub on_deletion {ℓ} : {A : Type ℓ} → Option ℕ → A → A → A
on_deletion (some t) deleted live = deleted
on_deletion none deleted live = live

unfoldable pub next_conditions : ℕ → Pvc → List Condition → List Condition
unfolding condition_of
next_conditions now pvc cs =
    on_deletion pvc.deleted (delete_conditions pvc.name cs)
      (upsert_condition pvc.name (condition_of now pvc) cs)

module _ (api : Api) where
  -- `locked` is what the controllers' semaphore answered.
  unfoldable pub reconcile : Bool → String → String → Action Outcome Outcome
  reconcile locked name namespace = do
    if locked then pure tt else return again
    pvc ←
        attempt (Call.get_pvc namespace name) (λ h. api.get_pvc h namespace name)
          λ e.
            return
              (if is_not_found e then success else failure ("unable to fetch PVC: " ⧺ message e))
    let config_name = label pvc.labels "discoblocks"
    config ←
        attempt (Call.get_disk_config pvc.namespace config_name)
          (λ h. api.get_disk_config h pvc.namespace config_name)
          λ e. return (if is_not_found e then success else failure "unable to fetch PVC")
    now ← observe api.now
    let updated = record config { conditions = next_conditions now pvc config.conditions }
    attempt (Call.update_disk_config_status updated) (λ h. api.update_disk_config_status h updated)
        λ e. return (failure "unable to update PVC status")
    pure success
