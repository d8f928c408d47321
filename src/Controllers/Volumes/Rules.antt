-- ===== src/Controllers/Volumes/Rules.antt =====
-- controllers/pvc_controller.go: the calls and the ends of the steps that createPVC and resizePVC share.
use discoblock.Base.{String, List, ◌≡◌, refl}
use discoblock.Kube.Objects.{DiskConfig, Pod, Job}
use discoblock.Kube.Exec.{Result, ok, err}
use discoblock.Kube.Exec.Emits.{Emits, emit_rules}
use discoblock.Kube.Exec.Returns.{Returns, Any, return_rules, Returns-told, Returns-attempt-told}
use discoblock.Kube.Api.{Api, ApiError, Call, Event}
use discoblock.Controllers.Volumes.{
  End, finished, out_of_fuel, only_attachment, notify, give_up, get_volume_attachment,
  class_missing, find_class, find_driver, find_wait_meta, start_job,
}

-- The calls by which a volume is looked up and reported are allowed.
pub record Reads (P : Call → Type 0) : Type 0 where
  pub event : (e : Event) → P (Call.send_event e)
  pub class : (name : String) → P (Call.get_storage_class name)
  pub attachments : (name : String) → P (Call.list_volume_attachments name)
  pub wait_meta : (name : String) → P (Call.wait_for_volume_attachment_meta name)

module _ (api : Api) {P : Call → Type 0} (reads : Reads P) where
  pub notify-Emits : (event : Event) → Emits P (notify api event)
  unfolding notify
  notify-Emits event = search (emit_rules, reads.event)

  pub give_up-Emits : {A : Type 0} (event : Event) → Emits P (give_up api {A = A} event)
  unfolding give_up
  give_up-Emits event = search (emit_rules, notify-Emits)

  pub get_volume_attachment-Emits : (name : String) → Emits P (get_volume_attachment api name)
  unfolding get_volume_attachment
  get_volume_attachment-Emits name = search (emit_rules, reads.attachments)

  module _ (config : DiskConfig) (pod : Pod) where
    pub find_class-Emits : Emits P (find_class api config pod)
    unfolding find_class
    find_class-Emits = search (emit_rules, reads.class, give_up-Emits)

    pub find_driver-Emits : (name : String) → Emits P (find_driver api config pod name)
    unfolding find_driver
    find_driver-Emits name = search (emit_rules, give_up-Emits)

    pub find_wait_meta-Emits : (name : String) → Emits P (find_wait_meta api config pod name)
    unfolding find_wait_meta
    find_wait_meta-Emits name = search (emit_rules, reads.wait_meta, give_up-Emits)

    pub start_job-Emits :
        (reason : String) (r : Result String Job)
        → ((job : Job) → r ≡ ok job → P (Call.create_job job))
        → Emits P (start_job api config pod reason r)
    unfolding start_job
    start_job-Emits reason (err e) k = search emit_rules
    start_job-Emits reason (ok job) k = search (emit_rules, give_up-Emits, k job refl)

abbrev pub Finished : End → Type 0
Finished finished = Unit
Finished out_of_fuel = ⊥

module _ (api : Api) {X : Type 0} where
  pub notify-Returns : {P : End → Type 0} (event : Event) → Returns X P Any (notify api event)
  unfolding notify
  notify-Returns event = search return_rules

  pub give_up-Returns :
      {A : Type 0} {Q : A → Type 0} (event : Event)
      → Returns X Finished Q (give_up api {A = A} event)
  unfolding give_up
  give_up-Returns event = search (return_rules, notify-Returns)

  -- whatever early returns may be
  pub give_up-Any :
      {A : Type 0} {Q : A → Type 0} (event : Event) → Returns X Any Q (give_up api {A = A} event)
  unfolding give_up
  give_up-Any event = search (return_rules, notify-Returns)

  pub get_volume_attachment-told :
      (name : String)
      → Returns X Finished
          (λ r. (h : List Call) × (only_attachment (api.list_volume_attachments h name) ≡ r))
          (get_volume_attachment api name)
  unfolding get_volume_attachment
  get_volume_attachment-told name = Returns-told _ _

  module _ (config : DiskConfig) (pod : Pod) where
    pub find_class-Returns : Returns X Finished Any (find_class api config pod)
    unfolding find_class
    find_class-Returns = search (return_rules, give_up-Returns)

    class_missing-Returns :
        (e : ApiError) → Returns X Finished (λ _. ⊥) (class_missing api config pod e)
    class_missing-Returns e = search (return_rules, give_up-Returns)

    -- the class of the DiskConfig, as the server answered it
    pub find_class-told :
        Returns X Finished
          (λ sc. (h : List Call) × (api.get_storage_class h config.spec.storage_class_name ≡ ok sc))
          (find_class api config pod)
    unfolding find_class
    find_class-told =
        Returns-attempt-told (Call.get_storage_class config.spec.storage_class_name)
          (λ h. api.get_storage_class h config.spec.storage_class_name)
          (class_missing api config pod) class_missing-Returns λ h sc told. (h, told)

    pub find_driver-Returns :
        (name : String) → Returns X Finished Any (find_driver api config pod name)
    unfolding find_driver
    find_driver-Returns name = search (return_rules, give_up-Returns)

    pub find_wait_meta-Returns :
        (name : String) → Returns X Finished Any (find_wait_meta api config pod name)
    unfolding find_wait_meta
    find_wait_meta-Returns name = search (return_rules, give_up-Returns)

    pub start_job-Returns :
        (reason : String) (r : Result String Job)
        → Returns X Finished Any (start_job api config pod reason r)
    unfolding start_job
    start_job-Returns reason (err e) = search return_rules
    start_job-Returns reason (ok job) = search (return_rules, give_up-Returns)
