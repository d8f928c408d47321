-- ===== src/Controllers/Rounds/Families.antt =====
-- controllers/pvc_controller.go: how MonitorVolumes groups the claims of a pod by their parent.
use discoblock.Base.{
  String, Bool, false, not, ◌&&◌, Option, none, some, List, [], ◌∷◌, ◌++◌, keep, Map, get, put,
  if◌then◌else◌, str_eq, is_some,
}
use discoblock.Kube.Objects.{Pvc, Volume, VolumeSource, claim}

abbrev pub is_named : Option String → String → Bool
is_named none name = false
is_named (some parent) name = str_eq parent name

-- the claims whose parent has this name
unfoldable pub children_of : String → List Pvc → List Pvc
children_of name active =
    keep (λ (c : Pvc). is_named (get c.labels "discoblocks-parent") name) active

abbrev pub of_key : Map (List Pvc) → String → List Pvc
of_key m name = elim (get m name) [ none ↦ [] | some family ↦ family ]

-- `podPVCsByParent[name] = append(...)` with the claim and its children
abbrev pub join_family : List Pvc → Pvc → Map (List Pvc) → Map (List Pvc)
join_family active cp m = put m cp.name (of_key m cp.name ++ cp ∷ children_of cp.name active)

unfoldable pub add_families : List Pvc → String → List Pvc → Map (List Pvc) → Map (List Pvc)
unfolding get put children_of
add_families active claim_name [] m = m
add_families active claim_name (cp ∷ rest) m = add_families active claim_name rest (
    if not (is_some (get cp.labels "discoblocks-parent")) && str_eq claim_name cp.name
    then join_family active cp m
    else m)

abbrev pub volume_families : List Pvc → VolumeSource → Map (List Pvc) → Map (List Pvc)
volume_families active (claim name) m = add_families active name active m
volume_families active _ m = m

unfoldable pub families : List Pvc → List Volume → Map (List Pvc) → Map (List Pvc)
unfolding add_families
families active [] m = m
families active (v ∷ rest) m = families active rest (volume_families active v.source m)
