-- ===== src/Examples/Controllers.antt =====
-- The controllers at concrete objects.
use mathlib.Core.Path.{subst}
use discoblock.Base.{
  String, Bool, true, false, not, none, some, List, [], ◌∷◌, keep, length, ◌≡◌, ◌≢◌, ◌⊎◌, refl, sym,
  ◌∙◌, ◌≤◌, arith, eq_iff, str_eq, get, label,
}
use discoblock.Kube.Objects.{NodeSelectorTerms, Pvc, DiskConfig}
use discoblock.Kube.Exec.{Result, ok}
use discoblock.Kube.Exec.Emits.{Emits}
use discoblock.Kube.Exec.Returns.{Returns, Any}
use discoblock.Kube.Api.{Call, History, ApiError}
use discoblock.Utils.Names.{render_finalizer}
use discoblock.Controllers.Conditions.{is_about, delete_conditions, upsert_condition}
use discoblock.Controllers.Conditions.Delete.{delete_conditions-keep}
use discoblock.Controllers.Conditions.Upsert.{upsert_condition_lem, delete-upsert, own, others}
use discoblock.Controllers.Pvc.{next_conditions}
use discoblock.Controllers.Pvc
use discoblock.Controllers.Pvc.Status.{IsUnique, WritesUnique, reconcile-IsUnique}
use discoblock.Controllers.DiskConfigs.{reconcile_delete, release_pvc}
use discoblock.Controllers.DiskConfigs.Release.{Releases, reconcile_delete-Releases}
use discoblock.Controllers.Filters.{updated, pvc_event_filter}
use discoblock.Controllers.Filters.Managed.{release_ignored}
use discoblock.Controllers.Nodes.{Nodes, scan_addresses, on_create, on_delete, get_nodes_by_ip}
use discoblock.Controllers.Nodes.ByIp.{Enumerates, get_nodes_by_ip_lem, on_delete_stale}
use discoblock.Controllers.Jobs
use discoblock.Controllers.Jobs.Panics.{ClaimGone, reconcile-Safe}
use discoblock.Examples.World.{config, condition, pvc, node, world, world-HasFinalizers}

delete_conditions-keep_example :
    delete_conditions "pvc-1" config.conditions
    ≡ keep (λ c. not (is_about "pvc-1" c)) config.conditions
delete_conditions-keep_example = delete_conditions-keep "pvc-1" config.conditions

about_new : is_about "pvc-1" (condition "pvc-1" "Lost") ≡ true
unfolding is_about
about_new = refl

one_own : length (own "pvc-1" config.conditions) ≤ 1
unfolding is_about
one_own = omega arith

upsert_condition_lem_example :
    (own "pvc-1" (upsert_condition "pvc-1" (condition "pvc-1" "Lost") config.conditions)
      ≡ condition "pvc-1" "Lost" ∷ [])
    × (others "pvc-1" (upsert_condition "pvc-1" (condition "pvc-1" "Lost") config.conditions)
        ≡ others "pvc-1" config.conditions)
upsert_condition_lem_example =
    upsert_condition_lem "pvc-1" (condition "pvc-1" "Lost") config.conditions about_new one_own

delete-upsert_example :
    delete_conditions "pvc-1"
      (upsert_condition "pvc-1" (condition "pvc-1" "Lost") config.conditions)
    ≡ delete_conditions "pvc-1" config.conditions
delete-upsert_example = delete-upsert "pvc-1" (condition "pvc-1" "Lost") config.conditions about_new

about_both : (q : String) → str_eq "pvc-1" q ≡ true → str_eq "pvc-2" q ≡ true → ⊥
about_both q a b =
    let same : ◌≡◌ {A = String} "pvc-1" "pvc-2" =
      (eq_iff "pvc-1" q).0 a ∙ sym ((eq_iff "pvc-2" q).0 b) in
    let equal : str_eq "pvc-1" "pvc-2" ≡ true = (eq_iff "pvc-1" "pvc-2").1 same in ground arith

unique : IsUnique config.conditions
unfolding is_about
unique q = ground (arith, about_both q)

ok_injective : (a b : DiskConfig) → ◌≡◌ {A = Result ApiError DiskConfig} (ok a) (ok b) → a ≡ b
ok_injective a b h = ground arith

always-IsUnique :
    (h : List Call) (ns n : String) (c : DiskConfig)
    → world.get_disk_config h ns n ≡ ok c
    → IsUnique c.conditions
always-IsUnique h ns n c e =
    subst (λ (d : DiskConfig). IsUnique d.conditions) (ok_injective config c e) unique

reconcile-IsUnique_example : Emits WritesUnique (Pvc.reconcile world true "pvc-1" "default")
reconcile-IsUnique_example = reconcile-IsUnique world true "pvc-1" "default" always-IsUnique

abbrev admit_all : History → Pvc → Bool
admit_all h p = true

reconcile_delete-Releases_example :
    Emits
      (Releases world "web" "default")
      (reconcile_delete world admit_all (λ l. l) "web" "default")
reconcile_delete-Releases_example =
    reconcile_delete-Releases world "web" "default" admit_all (λ l. l) (λ P pvcs all. all)

release_ignored_example :
    pvc_event_filter world (
      updated
        (some pvc)
        (some (release_pvc world (render_finalizer (label pvc.labels "discoblocks") []) pvc)))
    ≡ false
release_ignored_example = release_ignored world world-HasFinalizers pvc (updated (some pvc) _) refl

abbrev cache : Nodes
cache = ("host-1", "10.0.0.1") ∷ []

entries : Enumerates cache cache
unfolding get
entries = record { only = (refl, tt); every = λ k v h. ground (arith, eq_iff "host-1" k) }

get_nodes_by_ip_lem_example :
    ((name : String) × (get (get_nodes_by_ip cache) "10.0.0.1" ≡ some name)
      × (get cache name ≡ some "10.0.0.1"))
    ⊎ ((get (get_nodes_by_ip cache) "10.0.0.1" ≡ none)
        × ((name : String) → get cache name ≢ some "10.0.0.1"))
get_nodes_by_ip_lem_example = get_nodes_by_ip_lem cache cache "10.0.0.1" entries

on_delete_stale_example : get (on_delete (on_create [] node) node) "host-1" ≡ some "10.0.0.1"
unfolding scan_addresses
on_delete_stale_example =
    on_delete_stale [] node refl (λ e. ground (arith, eq_iff "host-1" "node-object"))

reconcile-Safe_example : Returns (ClaimGone world) Any Any (Jobs.reconcile world "resize" "default")
reconcile-Safe_example = reconcile-Safe world "resize" "default"

abbrev terms : NodeSelectorTerms
terms = [] ∷ (record { key = "metadata.name"; operator = "In"; values = "host-1" ∷ [] } ∷ []) ∷ []
