-- ===== src/Controllers/DiskConfigs/Complete.antt =====
-- controllers/diskconfig_controller.go: the goroutines of reconcileDelete, from first to last.
use discoblock.Base.{String, Bool, true, ◌&&◌, keep, List, [], All, ◌≡◌}
use discoblock.Kube.Objects.{Pvc}
use discoblock.Kube.Exec.{next}
use discoblock.Kube.Api.{Api, Call, History, Made}
use discoblock.Controllers.DiskConfigs.{release_pvc, has_task, release_task, release_all}

module _ (api : Api) (admitted : History → Pvc → Bool) (finalizer : String) where
  -- A task ends with the errors so far, and one more if its update was not made or failed.
  record Task (errs : List String) (pvc : Pvc) (h : History) : Type 0 where
    after : List String
    history : History
    runs : release_task api admitted finalizer errs pvc h ≡ (next after, history)
    kept : after ≡ [] → errs ≡ []
    made :
        after ≡ []
        → api.contains_finalizer pvc.finalizers finalizer ≡ true
        → Made (Call.update_pvc (release_pvc api finalizer pvc)) history
    grows : (c : Call) → Made c h → Made c history

  abbrev Released : History → List Pvc → Type 0
  Released h = All λ pvc.
      has_task api pvc ≡ true
      → api.contains_finalizer pvc.finalizers finalizer ≡ true
      → Made (Call.update_pvc (release_pvc api finalizer pvc)) h

  record Tasks (errs : List String) (pvcs : List Pvc) (h : History) : Type 0 where
    after : List String
    history : History
    runs : release_all api admitted finalizer errs pvcs h ≡ (next after, history)
    kept : after ≡ [] → errs ≡ []
    made : after ≡ [] → Released history pvcs
    grows : (c : Call) → Made c h → Made c history

  -- The claim has a task, and the finalizer that the task removes.
  abbrev pub needs_release : Pvc → Bool
  needs_release pvc = has_task api pvc && api.contains_finalizer pvc.finalizers finalizer

  -- Each claim that needs it has been updated without the finalizer.
  abbrev pub AllReleased : History → List Pvc → Type 0
  AllReleased h pvcs =
      All (λ pvc. Made (Call.update_pvc (release_pvc api finalizer pvc)) h)
        (keep needs_release pvcs)
