-- ===== src/Controllers/Create/Topology.antt =====
-- controllers/pvc_controller.go: the StorageClass of the allowed topology in createPVC.
use discoblock.Base.{String, ◌⧺◌, Option, none, some, List, [], ◌∷◌, if◌then◌else◌}
use discoblock.Kube.Objects.{DiskConfig, StorageClass, TopologyTerm, Pod}
use discoblock.Kube.Exec.{Result, ok, err, pure, call, attempt, ◌>>=◌, ◌>>◌}
use discoblock.Kube.Api.{Api, Action, ApiError, Call, message, is_already_exists}
use discoblock.Utils.Names.{render_finalizer}
use discoblock.Utils.Decorate.{new_storage_class}
use discoblock.Controllers.Volumes.{End, give_up, warn_config}

module _ (api : Api) (config : DiskConfig) (pod : Pod) where
  abbrev pub class_failed : {A : Type 0} → String → String → ApiError → Action End A
  class_failed verb name e = give_up api (
      warn_config api config pod
        ("Failed to " ⧺ verb ⧺ " StorageClass for " ⧺ config.name ⧺ ": " ⧺ name) (message e))

  -- the finalizer of the DiskConfig on a class that is there already
  abbrev pub add_class_finalizer : StorageClass → String → Action End (Unit {0})
  add_class_finalizer sc finalizer =
      if api.contains_finalizer sc.finalizers finalizer
      then pure tt
      else let updated = record sc {
        meta = record (sc.meta) { finalizers = api.add_finalizer sc.finalizers finalizer };
      } in
        attempt (Call.update_storage_class updated) (λ h. api.update_storage_class h updated)
          (class_failed "update" sc.name)

  abbrev pub on_class_created :
      StorageClass → Result ApiError (Unit {0}) → Action End (Option String)
  on_class_created topology_sc (ok _) = pure (some topology_sc.name)
  on_class_created topology_sc (err e) =
      if is_already_exists e
      then (attempt (Call.get_storage_class topology_sc.name)
            (λ h. api.get_storage_class h topology_sc.name) (class_failed "fetch" topology_sc.name)
          >>= λ sc.
              add_class_finalizer sc (render_finalizer config.name (config.namespace ∷ []))
              >> pure (some sc.name))
      else class_failed "create" topology_sc.name e

  abbrev pub create_class : Option StorageClass → Action End (Option String)
  create_class none = give_up api (
      warn_config api config pod ("Failed to create new StorageClass for " ⧺ config.name)
        "failed to render RenderResourceName of tmp StorageClass: missing name elements")
  create_class (some topology_sc) = do
    answer ←
        call (Call.create_storage_class topology_sc) λ h. api.create_storage_class h topology_sc
    on_class_created topology_sc answer

  -- The class that the claim names instead of its own; without terms there is none.
  unfoldable pub topology_class : StorageClass → List TopologyTerm → Action End (Option String)
  unfolding give_up attempt ◌>>=◌
  topology_class sc [] = pure none
  topology_class sc (t ∷ ts) = create_class (new_storage_class sc (t ∷ ts))
