-- ===== src/Controllers/Rounds/Filled.antt =====
-- controllers/pvc_controller.go: the families of claims that MonitorVolumes collects have claims.
use discoblock.Base.{
  String, Bool, true, false, not, ◌&&◌, List, [], ◌∷◌, ◌++◌, Map, get, put, ◌≡◌, ◌≢◌, inl, inr,
  refl, ◌∙◌, All, str_eq, is_some, Bool-cases, if◌then◌else◌,
}
use discoblock.Kube.Objects.{
  Pvc, Pod, Volume, VolumeSource, claim, host_path, secret, empty_dir, other_source,
}
use discoblock.Controllers.Rounds.Families.{
  of_key, join_family, add_families, volume_families, families,
}
use discoblock.Controllers.Rounds.{Round}

-- What is documented of sort.Slice, of iterating over a map, and of goroutines: each of them keeps the
-- elements that there are.
pub record Orders {F : Type 0} (round : Round F) : Type 1 where
  pub by_creation_kept : (family : List Pvc) → family ≢ [] → round.by_creation family ≢ []
  pub visit_kept :
      (P : String × List Pvc → Type 0) (m : Map (List Pvc)) → All P m → All P (round.visit m)
  pub in_order_kept :
      (P : Pod → Type 0) (pods : List Pod) → All P pods → All P (round.in_order pods)

-- A family has a claim.
abbrev pub IsFilled : String × List Pvc → Type 0
IsFilled family = family.1 ≢ []

put-All :
    (P : String × List Pvc → Type 0) (m : Map (List Pvc)) (name : String) (v : List Pvc)
    → P (name, v)
    → All P m
    → All P (put m name v)
unfolding put
put-All P [] name v p all = (p, tt)
put-All P ((k, u) ∷ rest) name v p all = elim (Bool-cases (str_eq k name)) [
  | inl e ↦ rw (e) (p, all.1)
  | inr e ↦ rw (e) (all.0, put-All P rest name v p all.1)
]

append-ne-nil : (xs : List Pvc) (y : Pvc) (ys : List Pvc) → xs ++ y ∷ ys ≢ []
append-ne-nil [] y ys e = cc e
append-ne-nil (x ∷ xs) y ys e = cc e

if-All :
    (P : String × List Pvc → Type 0) (b : Bool) (m n : Map (List Pvc))
    → All P m
    → All P n
    → All P (if b then m else n)
if-All P true m n am an = am
if-All P false m n am an = an

join_family-IsFilled :
    (active : List Pvc) (cp : Pvc) (m : Map (List Pvc))
    → All IsFilled m
    → All IsFilled (join_family active cp m)
join_family-IsFilled active cp m all =
    put-All IsFilled m cp.name _ (append-ne-nil (of_key m cp.name) cp _) all

add_families-IsFilled :
    (active : List Pvc) (name : String) (pvcs : List Pvc) (m : Map (List Pvc))
    → All IsFilled m
    → All IsFilled (add_families active name pvcs m)
unfolding add_families
add_families-IsFilled active name [] m all = all
add_families-IsFilled active name (cp ∷ rest) m all = add_families-IsFilled active name rest _ (
    if-All IsFilled (not (is_some (get cp.labels "discoblocks-parent")) && str_eq name cp.name)
      (join_family active cp m) m (join_family-IsFilled active cp m all) all)

volume_families-IsFilled :
    (active : List Pvc) (source : VolumeSource) (m : Map (List Pvc))
    → All IsFilled m
    → All IsFilled (volume_families active source m)
volume_families-IsFilled active (claim name) m all = add_families-IsFilled active name active m all
volume_families-IsFilled active (host_path path) m all = all
volume_families-IsFilled active (secret name) m all = all
volume_families-IsFilled active empty_dir m all = all
volume_families-IsFilled active other_source m all = all

pub families-IsFilled :
    (active : List Pvc) (volumes : List Volume) (m : Map (List Pvc))
    → All IsFilled m
    → All IsFilled (families active volumes m)
unfolding families
families-IsFilled active [] m all = all
families-IsFilled active (v ∷ rest) m all =
    families-IsFilled active rest _ (volume_families-IsFilled active v.source m all)

volume_families-none :
    (source : VolumeSource) (m : Map (List Pvc)) → volume_families [] source m ≡ m
unfolding add_families
volume_families-none (claim name) m = refl
volume_families-none (host_path path) m = refl
volume_families-none (secret name) m = refl
volume_families-none empty_dir m = refl
volume_families-none other_source m = refl

-- Without active claims there is no family.
pub families-none : (volumes : List Volume) (m : Map (List Pvc)) → families [] volumes m ≡ m
unfolding families
families-none [] m = refl
families-none (v ∷ rest) m =
    families-none rest (volume_families [] v.source m) ∙ volume_families-none v.source m
