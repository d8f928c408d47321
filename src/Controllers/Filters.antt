-- ===== src/Controllers/Filters.antt =====
-- The event filters of the controllers: which events start a reconciliation. An object that is not
-- of the expected type is `none`.
pub mod Managed
use discoblock.Base.{
  ℕ, String, Bool, true, false, not, ◌||◌, ◌&&◌, Option, none, some, List, [], ◌∷◌, if◌then◌else◌,
  str_eq, is_some, get, label,
}
use discoblock.Kube.Objects.{Pvc, Job, DiskConfig, DiskConfigSpec}
use discoblock.Kube.Api.{Api}
use discoblock.Utils.Names.{render_finalizer}

-- What a filter is asked about: the objects of the event.
pub data ObjectEvent (A : Type 0) : Type 0 where
  created : Option A → ObjectEvent A
  deleted : ObjectEvent A
  updated : Option A → Option A → ObjectEvent A
  generic : ObjectEvent A

module _ (api : Api) where
  -- The claim has the finalizer of the DiskConfig that its label names.
  unfoldable pub is_managed : Pvc → Bool
  is_managed pvc =
      api.contains_finalizer pvc.finalizers (render_finalizer (label pvc.labels "discoblocks") [])

  unfoldable pub pvc_create : Option Pvc → Bool
  unfolding is_managed
  pvc_create none = false
  pvc_create (some new) = is_managed new

  unfoldable pub pvc_update : Option Pvc → Option Pvc → Bool
  unfolding is_managed
  pvc_update old none = false
  pvc_update none (some new) = false
  pvc_update (some old) (some new) =
      if not (is_managed new)
      then false
      else not (str_eq old.phase new.phase) || is_some new.deleted

  unfoldable pub pvc_event_filter : ObjectEvent Pvc → Bool
  unfolding pvc_create pvc_update
  pvc_event_filter (created new) = pvc_create new
  pvc_event_filter deleted = false
  pvc_event_filter (updated old new) = pvc_update old new
  pvc_event_filter generic = false

abbrev is_discoblocks_app : Option String → Bool
is_discoblocks_app none = false
is_discoblocks_app (some app) = str_eq app "discoblocks"

unfoldable pub job_update : Option Job → Bool
job_update none = false
job_update (some new) =
    if not (is_discoblocks_app (get new.labels "app")) then false else is_some new.completed

unfoldable pub job_event_filter : ObjectEvent Job → Bool
unfolding job_update
job_event_filter (created new) = false
job_event_filter deleted = false
job_event_filter (updated old new) = job_update new
job_event_filter generic = false

abbrev differ : Option String → Option String → Bool
differ none old = false
differ (some new) none = false
differ (some new) (some old) = not (str_eq new old)

-- `marshal` is json.Marshal of the spec; `none` is its error.
unfoldable pub disk_config_update :
    (DiskConfigSpec → Option String) → Option DiskConfig → Option DiskConfig → Bool
disk_config_update marshal none new = false
disk_config_update marshal (some old) none = false
disk_config_update marshal (some old) (some new) = differ (marshal new.spec) (marshal old.spec)

unfoldable pub disk_config_event_filter :
    (DiskConfigSpec → Option String) → ObjectEvent DiskConfig → Bool
unfolding disk_config_update
disk_config_event_filter marshal (created new) = true
disk_config_event_filter marshal deleted = true
disk_config_event_filter marshal (updated old new) = disk_config_update marshal old new
disk_config_event_filter marshal generic = false
