-- ===== src/Controllers/DiskConfigs.antt =====
-- controllers/diskconfig_controller.go: DiskConfigReconciler.
pub mod Release
pub mod Complete
use discoblock.Base.{
  ℕ, ◌*◌, ◌^◌, String, ◌⧺◌, Bool, true, false, not, Option, none, some, List, [], ◌∷◌, ◌++◌,
  if◌then◌else◌, is_some, label,
}
use discoblock.Kube.Objects.{DiskConfig, StorageClass, Pvc}
use discoblock.Kube.Exec.{
  Result, ok, err, Exec, pure, return, attempt, call, observe, for_each, ◌>>=◌, ◌>>◌,
}
use discoblock.Kube.Api.{Api, Action, ApiError, Call, History, is_not_found, message}
use discoblock.Utils.Names.{render_finalizer}
use discoblock.Controllers.Outcome.{Outcome, success, failure, again, again_after}

-- time.Minute in nanoseconds
abbrev minute : ℕ
minute = 60 * 1000000000

-- `strings.Join(errs, "\t")`
unfoldable pub join_tabs : List String → String
join_tabs [] = ""
join_tabs (e ∷ []) = e
join_tabs (e ∷ f ∷ rest) = e ⧺ "\t" ⧺ join_tabs (f ∷ rest)

module _ (api : Api) where
  -- controllerutil.RemoveFinalizer on a StorageClass and on a claim
  unfoldable pub release_class : String → StorageClass → StorageClass
  release_class finalizer sc = record sc {
    meta = record (sc.meta) { finalizers = api.remove_finalizer sc.finalizers finalizer };
  }

  unfoldable pub release_pvc : String → Pvc → Pvc
  release_pvc finalizer pvc = record pvc {
    meta = record (pvc.meta) { finalizers = api.remove_finalizer pvc.finalizers finalizer };
  }

  unfoldable pub claim_class : String → StorageClass → StorageClass
  claim_class finalizer sc = record sc {
    meta = record (sc.meta) { finalizers = api.add_finalizer sc.finalizers finalizer };
  }

  update_class : StorageClass → String → Action Outcome (Unit {0})
  update_class sc text =
      attempt (Call.update_storage_class sc) (λ h. api.update_storage_class h sc)
        λ e. return (failure (text ⧺ message e))

  -- one round of the loop over the StorageClasses
  unfoldable pub release_one_class : String → StorageClass → Action Outcome (Unit {0})
  unfolding update_class
  release_one_class finalizer sc =
      if api.contains_finalizer sc.finalizers finalizer
      then update_class (release_class finalizer sc) "unable to remove finalizer of StorageClass: "
      else pure tt

  -- what a goroutine sends to `errChan` about the answer to its update
  abbrev pub report : Result ApiError (Unit {0}) → Pvc → List String → List String
  report (ok _) pvc errs = errs
  report (err e) pvc errs =
      errs
      ++ ("unable to remove finalizer of PVC " ⧺ pvc.namespace ⧺ "->" ⧺ pvc.name ⧺ ": " ⧺ message e)
        ∷ []

  -- The claim's label names a DiskConfig whose finalizer it has: no goroutine is started for others.
  unfoldable pub has_task : Pvc → Bool
  has_task pvc =
      api.contains_finalizer pvc.finalizers (render_finalizer (label pvc.labels "discoblocks") [])

  unfoldable pub update_claim : String → List String → Pvc → Action Outcome (List String)
  update_claim finalizer errs pvc = do
    answer ←
        call (Call.update_pvc (release_pvc finalizer pvc))
          (λ h. api.update_pvc h (release_pvc finalizer pvc))
    pure (report answer pvc errs)

  module _ (admitted : History → Pvc → Bool) where
    -- The goroutine of one claim. `admitted` is whether WaitForSemaphore gave it a slot before the
    -- deadline; the update is its only call, so an interleaving of goroutines is an order of them.
    unfoldable pub release_task : String → List String → Pvc → Action Outcome (List String)
    release_task finalizer errs pvc = do
      slot ← observe (λ h. admitted h pvc)
      if not slot
          then pure (errs ++ ("context deadline " ⧺ pvc.namespace ⧺ "->" ⧺ pvc.name) ∷ [])
          else if api.contains_finalizer pvc.finalizers finalizer
          then update_claim finalizer errs pvc
          else pure errs

    -- The claims in the order in which their goroutines run, with the errors so far.
    unfoldable pub release_all : String → List String → List Pvc → Action Outcome (List String)
    release_all finalizer errs [] = pure errs
    release_all finalizer errs (pvc ∷ rest) =
        let skip = release_all finalizer errs rest in
        if has_task pvc
        then (release_task finalizer errs pvc >>= λ errs'. release_all finalizer errs' rest)
        else skip

    abbrev verdict : List String → Outcome
    verdict [] = success
    verdict (e ∷ errs) = failure ("some PVC updates failed: " ⧺ join_tabs (e ∷ errs))

    -- `schedule` is the order in which the goroutines of the listed claims run.
    unfoldable pub reconcile_delete :
        (List Pvc → List Pvc) → String → String → Action Outcome Outcome
    reconcile_delete schedule config_name config_namespace = do
      let ns_finalizer = render_finalizer config_name (config_namespace ∷ [])
      classes ←
          attempt Call.list_storage_classes api.list_storage_classes
            λ e. return (failure ("unable to list StorageClasses: " ⧺ message e))
      for_each classes (release_one_class ns_finalizer)
      if api.is_requirement "discoblocks" config_name then pure tt else return success
      pvcs ←
          attempt (Call.list_pvcs config_namespace "discoblocks" config_name)
            (λ h. api.list_pvcs h config_namespace "discoblocks" config_name)
            λ e. return (failure ("unable to list PVCs: " ⧺ message e))
      errs ← release_all (render_finalizer config_name []) [] (schedule pvcs)
      pure (verdict errs)

  unfoldable pub reconcile_update : DiskConfig → Action Outcome Outcome
  unfolding update_class
  reconcile_update config = do
    let class_name = config.spec.storage_class_name
    sc ←
        attempt (Call.get_storage_class class_name) (λ h. api.get_storage_class h class_name)
          λ e. return (
            if is_not_found e
            then again_after minute
            else failure ("unable to fetch StorageClass: " ⧺ message e))
    let finalizer = render_finalizer config.name (config.namespace ∷ [])
    if api.contains_finalizer sc.finalizers finalizer
        then pure tt
        else update_class (claim_class finalizer sc) "unable to update StorageClass: "
    pure success

  module _ (admitted : History → Pvc → Bool) (schedule : List Pvc → List Pvc) where
    abbrev on_config : String → String → Result ApiError DiskConfig → Action Outcome Outcome
    on_config name namespace (err e) =
        if is_not_found e
        then reconcile_delete admitted schedule name namespace
        else return (failure ("unable to fetch DiskConfig: " ⧺ message e))
    on_config name namespace (ok config) =
        if is_some config.deleted
        then reconcile_delete admitted schedule name namespace
        else reconcile_update config

    -- `locked` is what the controllers' semaphore answered.
    unfoldable pub reconcile : Bool → String → String → Action Outcome Outcome
    reconcile locked name namespace = do
      if locked then pure tt else return again
      answer ←
          call (Call.get_disk_config namespace name) (λ h. api.get_disk_config h namespace name)
      on_config name namespace answer
