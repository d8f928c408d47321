-- ===== src/Controllers/Jobs/Deletes.antt =====
-- controllers/job_controller.go: the calls of Reconcile.
use discoblock.Base.{◌≡◌, ◌⊎◌}
use discoblock.Kube.Exec.Emits.{Emits}
use discoblock.Kube.Api.{Api, Call}

-- A read, an event, a pod's deletion, or the deletion of a job that has succeeded or is the zero value.
abbrev pub SparesUnfinished : Call → Type 0
SparesUnfinished (Call.delete_job job) = (job.uid ≡ "") ⊎ (job.succeeded ≡ 1)
SparesUnfinished (Call.delete_pod _) = Unit
SparesUnfinished (Call.get_job _ _) = Unit
SparesUnfinished (Call.get_pod _ _) = Unit
SparesUnfinished (Call.get_pvc _ _) = Unit
SparesUnfinished (Call.list_pods _ _ _) = Unit
SparesUnfinished (Call.send_event _) = Unit
SparesUnfinished _ = ⊥
