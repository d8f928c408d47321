-- ===== src/Controllers/DiskConfigs/Release.antt =====
-- controllers/diskconfig_controller.go: the calls of reconcileDelete.
use discoblock.Base.{String, Bool, List, [], ◌∷◌, ◌≡◌, refl, All, All-map, All-Among, Among}
use discoblock.Kube.Objects.{StorageClass, Pvc}
use discoblock.Kube.Exec.{Exec, ok}
use discoblock.Kube.Exec.Emits.{
  Emits, emit_rules, Emits-if, Emits-bind, Emits-each, Emits-answer, Emits-pure,
}
use discoblock.Kube.Api.{Api, Call, History}
use discoblock.Utils.Names.{render_finalizer}
use discoblock.Controllers.DiskConfigs.{
  release_class, release_pvc, release_one_class, update_claim, release_task, release_all,
  reconcile_delete,
}

module _ (api : Api) (name namespace : String) where
  -- The server listed the StorageClass.
  abbrev pub IsListedClass : StorageClass → Type 0
  IsListedClass sc =
      (h : History) × (classes : List StorageClass) × (api.list_storage_classes h ≡ ok classes)
      × Among sc classes

  -- The server listed the claim, among those of the DiskConfig.
  abbrev pub IsListedPvc : Pvc → Type 0
  IsListedPvc pvc =
      (h : History) × (pvcs : List Pvc) × (api.list_pvcs h namespace "discoblocks" name ≡ ok pvcs)
      × Among pvc pvcs

  -- A read, or an update of an object that the server listed, less the finalizer of the DiskConfig.
  abbrev pub Releases : Call → Type 0
  Releases Call.list_storage_classes = Unit
  Releases (Call.list_pvcs _ _ _) = Unit
  Releases (Call.update_storage_class sc) =
      (old : StorageClass) × IsListedClass old
      × (sc ≡ record old {
        meta = record (old.meta) {
          finalizers = api.remove_finalizer old.finalizers (render_finalizer name (namespace ∷ []));
        };
      })
  Releases (Call.update_pvc pvc) =
      (old : Pvc) × IsListedPvc old
      × (pvc ≡ record old {
        meta = record (old.meta) {
          finalizers = api.remove_finalizer old.finalizers (render_finalizer name []);
        };
      })
  Releases _ = ⊥

  abbrev Quiet : {R A : Type 0} → Exec Call R A → Type 0
  Quiet = Emits Releases

  release_one_class-Quiet :
      (sc : StorageClass)
      → IsListedClass sc
      → Quiet (release_one_class api (render_finalizer name (namespace ∷ [])) sc)
  unfolding release_one_class release_class
  release_one_class-Quiet sc listed =
      let allowed : Releases (
          Call.update_storage_class
            (release_class api (render_finalizer name (namespace ∷ [])) sc)) =
        (sc, listed, refl) in
      search (emit_rules, allowed)

  update_claim-Quiet :
      (errs : List String) (pvc : Pvc)
      → IsListedPvc pvc
      → Quiet (update_claim api (render_finalizer name []) errs pvc)
  unfolding update_claim release_pvc
  update_claim-Quiet errs pvc listed =
      let allowed : Releases (Call.update_pvc (release_pvc api (render_finalizer name []) pvc)) =
        (pvc, listed, refl) in
      search (emit_rules, allowed)

  release_task-Quiet :
      (admitted : History → Pvc → Bool) (errs : List String) (pvc : Pvc)
      → IsListedPvc pvc
      → Quiet (release_task api admitted (render_finalizer name []) errs pvc)
  unfolding release_task
  release_task-Quiet admitted errs pvc listed = search (emit_rules, update_claim-Quiet, listed)

  release_all-Quiet :
      (admitted : History → Pvc → Bool) (errs : List String) (pvcs : List Pvc)
      → All IsListedPvc pvcs
      → Quiet (release_all api admitted (render_finalizer name []) errs pvcs)
  unfolding release_all
  release_all-Quiet admitted errs [] listed = search emit_rules
  release_all-Quiet admitted errs (pvc ∷ rest) listed =
      Emits-if _ _ _
        (λ _.
          Emits-bind _ _ (release_task-Quiet admitted errs pvc listed.0)
            (λ errs'. release_all-Quiet admitted errs' rest listed.1))
        (λ _. release_all-Quiet admitted errs rest listed.1)

  -- A deletion reads, and updates only StorageClasses and claims that the server listed, of which it
  -- changes nothing but that the finalizer of the DiskConfig is removed; it creates and deletes nothing.
  -- The condition is that the goroutines run for listed claims only.
  pub reconcile_delete-Releases :
      (admitted : History → Pvc → Bool) (schedule : List Pvc → List Pvc)
      → ((P : Pvc → Type 0) (pvcs : List Pvc) → All P pvcs → All P (schedule pvcs))
      → Emits Releases (reconcile_delete api admitted schedule name namespace)
  unfolding reconcile_delete
  reconcile_delete-Releases admitted schedule kept = Emits-answer _ _ _ _ tt λ h classes told.
      Emits-bind _ _
        (Emits-each IsListedClass classes _
          (All-map (λ sc k. (h, classes, told, k)) classes (All-Among classes))
          release_one_class-Quiet)
        λ _. Emits-bind _ _ (search emit_rules) λ _. Emits-answer _ _ _ _ tt λ g pvcs answer.
          Emits-bind _ _
            (release_all-Quiet admitted [] (schedule pvcs) (
              kept IsListedPvc pvcs
                (All-map (λ pvc k. (g, pvcs, answer, k)) pvcs (All-Among pvcs))))
            λ errs. Emits-pure _
