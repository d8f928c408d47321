-- ===== src/Controllers/Filters/Managed.antt =====
-- The event filters on the claims of pkg/utils/kube.go and controllers/diskconfig_controller.go.
use discoblock.Base.{
  String, ◌≡◌, refl, true, false, Option, [], none, some, eq_refl, label, get, ◌∙◌,
}
use discoblock.Kube.Objects.{Pvc, DiskConfig}
use discoblock.Kube.Api.{Api, HasFinalizers}
use discoblock.Utils.Names.{render_finalizer}
use discoblock.Utils.Decorate.{pvc_decorator}
use discoblock.Controllers.DiskConfigs.{release_pvc}
use discoblock.Controllers.Filters.{
  is_managed, pvc_create, pvc_update, ObjectEvent, created, deleted, updated, generic,
  pvc_event_filter,
}

module _ (api : Api) (laws : HasFinalizers api) where
  -- Every claim that PVCDecorator prepares passes the create filter.
  pub pvc_create-pvc_decorator :
      (config : DiskConfig) (pvc : Pvc) → pvc_create api (some (pvc_decorator config pvc)) ≡ true
  unfolding pvc_create pvc_decorator label get
  pvc_create-pvc_decorator config pvc =
      laws.contains_one (render_finalizer config.name []) (render_finalizer config.name [])
      ∙ eq_refl (render_finalizer config.name [])

  update_gone :
      (old : Option Pvc) (new : Pvc)
      → is_managed api new ≡ false
      → pvc_update api old (some new) ≡ false
  unfolding pvc_update
  update_gone none new g = refl
  update_gone (some o) new g = rw g

  abbrev released : Pvc → Pvc
  released pvc = release_pvc api (render_finalizer (label pvc.labels "discoblocks") []) pvc

  gone : (pvc : Pvc) → is_managed api (released pvc) ≡ false
  unfolding release_pvc is_managed
  gone pvc =
      let finalizer : String = render_finalizer (label pvc.labels "discoblocks") [] in
      rw (laws.contains_remove pvc.finalizers finalizer finalizer, eq_refl finalizer)

  -- Where the new object of the event is this claim, if the event has one.
  abbrev pub IsNow : Pvc → ObjectEvent Pvc → Type 0
  IsNow pvc (created new) = new ≡ some pvc
  IsNow pvc deleted = Unit
  IsNow pvc (updated old new) = new ≡ some pvc
  IsNow pvc generic = Unit

  -- Once reconcileDelete has removed the finalizer that is named after the label of a claim, no event
  -- about the claim starts a reconciliation any more, whatever the claim was before.
  pub release_ignored :
      (pvc : Pvc) (event : ObjectEvent Pvc)
      → IsNow (release_pvc api (render_finalizer (label pvc.labels "discoblocks") []) pvc) event
      → pvc_event_filter api event ≡ false
  unfolding pvc_event_filter pvc_create release_pvc
  release_ignored pvc (created new) now = rw (now) (gone pvc)
  release_ignored pvc deleted now = refl
  release_ignored pvc (updated old new) now = rw (now) (update_gone old (released pvc) (gone pvc))
  release_ignored pvc generic now = refl
