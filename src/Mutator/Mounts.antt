-- ===== src/Mutator/Mounts.antt =====
-- mutators/pod_mutator.go: the pod that Handle answers with.
use discoblock.Base.{
  ℕ, suc, String, Bool, Bool-cases, true, false, ◌&&◌, ◌||◌, List, [], ◌∷◌, ◌++◌, map, Map, ◌≡◌,
  ◌⊎◌, inl, inr, refl, arith, put, any, All, All-map, str_eq, eq_iff, eq_refl,
}
use discoblock.Kube.Objects.{Container, Volume, VolumeMount, VolumeSource, claim}
use discoblock.Mutator.Common.{Library, Progress}
use discoblock.Mutator.Patch.{is_proxy, disk_mount, tools_mount, mount_disks, mount_all}
use discoblock.Mutator.{with_claim, claim_volume}

-- No entry has this mount point.
abbrev pub Free : String → Map String → Type 0
Free mp m = All (λ (v : String × String). str_eq v.1 mp ≡ false) m

-- No two names have one mount point.
abbrev pub Distinct : Map String → Type 0
Distinct [] = Unit
Distinct ((name, mp) ∷ m) = Free mp m × Distinct m

abbrev pub is_claim : String → VolumeSource → Bool
is_claim name (claim c) = str_eq c name
is_claim name _ = false

-- The pod has a volume of this name for the claim of this name.
abbrev pub HasClaim : List Volume → String × String → Type 0
HasClaim volumes v = any (λ (u : Volume). str_eq u.name v.0 && is_claim v.0 u.source) volumes ≡ true

abbrev pub HasMount : Container → String × String → Type 0
HasMount c v =
    any (λ (m : VolumeMount). str_eq m.name v.0 && str_eq m.mount_path v.1) c.volume_mounts ≡ true

any-append :
    {A : Type 0} (q : A → Bool) (xs ys : List A) → any q (xs ++ ys) ≡ (any q xs || any q ys)
any-append q [] ys = refl
any-append q (x ∷ xs) ys = ground (arith, any-append q xs ys)

any-Free :
    (mp : String) (m : Map String)
    → any (λ (v : String × String). str_eq v.1 mp) m ≡ false
    → Free mp m
any-Free mp [] h = tt
any-Free mp ((k, v) ∷ m) h = (ground arith, any-Free mp m (ground arith))

Free-put :
    (v name mp : String) (m : Map String) → Free v m → str_eq mp v ≡ false → Free v (put m name mp)
unfolding put
Free-put v name mp [] free ne = (ne, tt)
Free-put v name mp ((k, w) ∷ m) free ne = elim (Bool-cases (str_eq k name)) [
  | inl e ↦ rw (e) (ne, free.1)
  | inr e ↦ rw (e) (free.0, Free-put v name mp m free.1 ne)
]

flip : (a b : String) → str_eq a b ≡ false → str_eq b a ≡ false
flip a b h = ground (arith, eq_iff a b, eq_iff b a)

Distinct-put :
    (name mp : String) (m : Map String) → Distinct m → Free mp m → Distinct (put m name mp)
unfolding put
Distinct-put name mp [] d free = (tt, tt)
Distinct-put name mp ((k, w) ∷ m) d free = elim (Bool-cases (str_eq k name)) [
  | inl e ↦ rw (e) (free.1, d.1)
  | inr e ↦ rw (e) (Free-put w name mp m d.0 (flip w mp free.0), Distinct-put name mp m d.1 free.1)
]

-- What the loop keeps.
pub record IsPrepared (volumes : List Volume) (m : Map String) : Type 0 where
  pub distinct : Distinct m
  pub claims : All (HasClaim volumes) m

HasClaim-append :
    (us ws : List Volume) (v : String × String) → HasClaim us v → HasClaim (us ++ ws) v
HasClaim-append us ws v h =
    ground (arith, any-append (λ (u : Volume). str_eq u.name v.0 && is_claim v.0 u.source) us ws, h)

pub claims-append :
    (us ws : List Volume) (m : Map String) → All (HasClaim us) m → All (HasClaim (us ++ ws)) m
claims-append us ws m = All-map (HasClaim-append us ws) m

All-put :
    (Q : String × String → Type 0) (m : Map String) (name mp : String)
    → All Q m
    → Q (name, mp)
    → All Q (put m name mp)
unfolding put
All-put Q [] name mp h q = (q, tt)
All-put Q ((k, w) ∷ m) name mp h q = elim (Bool-cases (str_eq k name)) [
  | inl e ↦ rw (e) (q, h.1)
  | inr e ↦ rw (e) (h.0, All-put Q m name mp h.1 q)
]

claim_added :
    (us : List Volume) (name mp : String) → HasClaim (us ++ claim_volume name ∷ []) (name, mp)
claim_added us name mp = ground (
  arith,
  any-append (λ (u : Volume). str_eq u.name name && is_claim name u.source) us
      (claim_volume name ∷ []),
  eq_refl name,
)

pub with_claim-IsPrepared :
    (p : Progress) (name mp : String)
    → IsPrepared p.pod.volumes p.volumes
    → any (λ (v : String × String). str_eq v.1 mp) p.volumes ≡ false
    → IsPrepared (with_claim p name mp).pod.volumes (with_claim p name mp).volumes
with_claim-IsPrepared p name mp i free = record {
  distinct = Distinct-put name mp p.volumes i.distinct (any-Free mp p.volumes free);
  claims =
      All-put _ p.volumes name mp (claims-append _ _ p.volumes i.claims)
        (claim_added p.pod.volumes name mp);
}

-- What an iteration over a map visits is all of it.
pub record Visits (lib : Library) : Type 1 where
  pub every :
      (n : ℕ) (m : Map String) (Q : String × String → Type 0) → All Q (lib.visit n m) → All Q m

is_mount : String × String → VolumeMount → Bool
is_mount v m = str_eq m.name v.0 && str_eq m.mount_path v.1

has_mapped :
    (ds : List (String × String)) → All (λ d. any (is_mount d) (map disk_mount ds) ≡ true) ds
unfolding is_mount
has_mapped [] = tt
has_mapped (d ∷ ds) = (
  ground (arith, eq_refl d.0, eq_refl d.1),
  All-map (λ e h. ground (arith, h)) ds (has_mapped ds),
)

-- The proxy, or a container with a mount for every disk.
abbrev pub IsMounted : Map String → Container → Type 0
IsMounted volumes c = (is_proxy c ≡ true) ⊎ All (HasMount c) volumes

disk-HasMount :
    (ds : List (String × String)) (c : Container) (d : String × String)
    → is_proxy c ≡ false
    → any (is_mount d) (map disk_mount ds) ≡ true
    → HasMount (mount_disks ds c) d
unfolding is_mount
disk-HasMount ds c d e h =
    rw (e, any-append (is_mount d) c.volume_mounts (tools_mount c ∷ map disk_mount ds))
      (ground (arith, h))

module _ (lib : Library) (visits : Visits lib) where
  pub mount_all-IsMounted :
      (volumes : Map String) (i : ℕ) (cs : List Container)
      → All (IsMounted volumes) (mount_all lib volumes i cs)
  unfolding mount_all
  mount_all-IsMounted volumes i [] = tt
  mount_all-IsMounted volumes i (c ∷ cs) = (one, mount_all-IsMounted volumes (suc i) cs)
    where
      one : IsMounted volumes (mount_disks (lib.visit i volumes) c)
      one = elim (Bool-cases (is_proxy c)) [
        | inl e ↦ inl e
        | inr e ↦ inr (
            visits.every i volumes _ (
              All-map (λ d h. disk-HasMount (lib.visit i volumes) c d e h) (lib.visit i volumes)
                (has_mapped (lib.visit i volumes))))
      ]
