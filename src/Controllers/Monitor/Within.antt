-- ===== src/Controllers/Monitor/Within.antt =====
-- controllers/pvc_controller.go: the monitor's decision against the policy.
use discoblock.Base.{
  ℕ, ◌<◌, String, Bool, false, Option, none, some, ◌≡◌, ◌≢◌, ◌⊎◌, inl, inr, arith, Bool-cases,
  Option-cases, Map, str_eq, label,
}
use discoblock.Base.Int.{ℤ, pos, negsuc, next_int, IsInt, ◌≤ℤ◌}
use discoblock.Kube.Objects.{DiskConfig, Policy, Pvc}
use discoblock.Kube.Quantity.{Quantity, Quantities, IsExact, exceeds}
use discoblock.Utils.Mount.{render_mount_point}
use discoblock.Utils.Mount.Distinct.{IsSimple, render_mount_point_distinct}
use discoblock.Controllers.Monitor.{
  Decision, new_capacity, enough_disks, extend, judge_use, decide, act_index,
}

module _ (q : Quantities) (value : Quantity → ℤ) (exact : IsExact q value) {F : Type 0}
    (less : F → ℕ → Bool) (other : String → ℤ → String) where
  -- A resize stays within the maximum capacity, and a new disk within the maximum number, where 0
  -- is no maximum.
  abbrev pub Keeps : Policy → ℕ → Decision → Type 0
  Keeps policy size (Decision.resize c pvc) = value c ≤ℤ value policy.maximum_capacity_of_disk
  Keeps policy size (Decision.new_disk i pvc) =
      (policy.maximum_number_of_disks ≡ 0) ⊎ (size < policy.maximum_number_of_disks)
  Keeps policy size _ = Unit

  pub record Bounded (policy : Policy) (size : ℕ) (decision : Decision) : Type 0 where
    pub kept : Keeps policy size decision

  not_exceeding : (a b : Quantity) → exceeds q a b ≡ false → value a ≤ℤ value b
  not_exceeding a b h = ground (arith, exact.cmp_lem a b)

  room_left :
      (policy : Policy) (size : ℕ)
      → enough_disks q less other policy size ≡ false
      → (policy.maximum_number_of_disks ≡ 0) ⊎ (size < policy.maximum_number_of_disks)
  unfolding enough_disks
  room_left policy size h = ground arith

  extend-Bounded :
      (policy : Policy) (nodes : Map String) (host_ip : String) (parent last : Pvc) (size : ℕ)
      (index : ℤ)
      → Bounded policy size (extend q less other policy nodes host_ip parent last size index)
  unfolding extend
  extend-Bounded policy nodes host_ip parent last size index =
      elim (Bool-cases (str_eq (label nodes host_ip) "")) [
        | inl e ↦ rw (e) (record { kept = tt })
        | inr e ↦
            elim (Bool-cases
              (exceeds q (new_capacity q less other policy last) policy.maximum_capacity_of_disk)) [
                | inr small ↦ rw (e, small) (record { kept = not_exceeding _ _ small })
                | inl large ↦ elim (Bool-cases (enough_disks q less other policy size)) [
                  | inl full ↦ rw (e, large, full) (record { kept = tt })
                  | inr room ↦ rw (e, large, room) (record { kept = room_left policy size room })
                ]
              ]
      ]

  judge_use-Bounded :
      (policy : Policy) (size : ℕ) (used : Option F) (more : Decision)
      → Bounded policy size more
      → Bounded policy size (judge_use q less other policy used more)
  unfolding judge_use
  judge_use-Bounded policy size none more k = record { kept = tt }
  judge_use-Bounded policy size (some used) more k =
      elim (Bool-cases (less used policy.upscale_trigger_percentage)) [
        | inl e ↦ rw (e) (record { kept = tt })
        | inr e ↦ rw (e) k
      ]

  -- Whatever the disk information says, the monitor asks for a resize only up to the maximum capacity,
  -- and for a new disk only while the family has fewer claims than the maximum number, where 0 is no
  -- maximum.
  pub decide-Bounded :
      (config : DiskConfig) (info : Map F) (nodes : Map String) (host_ip : String)
      (parent last : Pvc) (size : ℕ)
      → Bounded config.spec.policy size
          (decide q less other config info nodes host_ip parent last size)
  unfolding decide
  decide-Bounded config info nodes host_ip parent last size = elim (Option-cases (act_index last)) [
    | inl e ↦ rw (e, decide) (record { kept = tt })
    | inr (index, e) ↦
        rw (e, decide)
          (judge_use-Bounded config.spec.policy size _ _
            (extend-Bounded config.spec.policy nodes host_ip parent last size index))
  ]

  in_use :
      (policy : Policy) (used : Option F) (more : Decision) (i : ℤ) (p : Pvc)
      → judge_use q less other policy used more ≡ Decision.new_disk i p
      → more ≡ Decision.new_disk i p
  unfolding judge_use
  in_use policy none more i p h = ground arith
  in_use policy (some used) more i p h = ground arith

  extended :
      (policy : Policy) (nodes : Map String) (host_ip : String) (parent last : Pvc) (size : ℕ)
      (index i : ℤ) (p : Pvc)
      → extend q less other policy nodes host_ip parent last size index ≡ Decision.new_disk i p
      → next_int index ≡ i
  unfolding extend
  extended policy nodes host_ip parent last size index i p h = ground arith

  next_differs : (i : ℤ) → IsInt i → i ≢ next_int i
  unfolding next_int
  next_differs (pos n) h e = ground arith
  next_differs (negsuc n) h e = ground arith

  next_IsInt : (i : ℤ) → IsInt i → IsInt (next_int i)
  unfolding next_int
  next_IsInt (pos n) h = ground arith
  next_IsInt (negsuc n) h = ground arith

  -- A new disk is mounted at another place than the newest claim of its family, where the pattern is
  -- empty, has no `%`, or has one that begins a `%d`, and the index of that claim is an int.
  pub decide-distinct :
      (config : DiskConfig) (info : Map F) (nodes : Map String) (host_ip : String)
      (parent last : Pvc) (size : ℕ) (index i : ℤ) (p : Pvc)
      → IsSimple config.spec.mount_point_pattern
      → act_index last ≡ some index
      → IsInt index
      → decide q less other config info nodes host_ip parent last size ≡ Decision.new_disk i p
      → render_mount_point other config.spec.mount_point_pattern config.name index
        ≢ render_mount_point other config.spec.mount_point_pattern config.name i
  unfolding decide
  decide-distinct config info nodes host_ip parent last size index i p simple known fits h =
      let next =
        extended config.spec.policy nodes host_ip parent last size index i p
          (in_use config.spec.policy _ _ i p (rw (known, decide) at h)) in
      rw (← next) (
        render_mount_point_distinct other config.spec.mount_point_pattern config.name index
          (next_int index) simple fits (next_IsInt index fits) (next_differs index fits))
