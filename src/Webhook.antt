-- ===== src/Webhook.antt =====
-- api/v1/diskconfig_webhook.go: the validation of a DiskConfig.
pub mod Accepted
pub mod Lifetime
use Prim.Native.Nat.{Ordering}
use discoblock.Base.{
  ℕ, suc, ◌+◌, ◌*◌, Char, code, String, ◌⧺◌, ◌≡◌, refl, Bool, true, false, not, ◌&&◌, ◌||◌, Option,
  none, some, List, [], ◌∷◌, any, ltb, ◌==◌, if◌then◌else◌, str_eq,
}
use discoblock.Base.Int.{ℤ, pos, leb_ℤ}
use discoblock.Kube.Objects.{DiskConfig, DiskConfigSpec}
use discoblock.Kube.Quantity.{Quantities, exceeds, below, is_set}
use discoblock.Kube.Exec.{Result, ok, err, pure, return, crash, attempt, ◌>>=◌, ◌>>◌}
use discoblock.Kube.Api.{Api, Action, Call, message}
use discoblock.Utils.Mount.{split_verb}

-- `strings.Count(pattern, "%d")`: two occurrences cannot overlap, and the rest is one character shorter.
unfoldable pub count_verbs : Bool → String → ℕ
count_verbs after_percent String.[] = 0
count_verbs after_percent (String.◌∷◌ c s) =
    let rest = count_verbs (code c == b'%') s in
    if after_percent && code c == b'd' then suc rest else rest

-- `reservedCharacters`, the class `[>|<|||:|&|.|\+|\*|!|\?|\^|\$|\(|\)|\[|\]|\{|\}]`
abbrev reserved : List ℕ
reserved =
    b'>' ∷ b'|' ∷ b'<' ∷ b':' ∷ b'&' ∷ b'.' ∷ b'+' ∷ b'*' ∷ b'!' ∷ b'?' ∷ b'^' ∷ b'$' ∷ b'(' ∷ b')'
    ∷ b'[' ∷ b']' ∷ b'{' ∷ b'}' ∷ []

unfoldable pub is_reserved : Char → Bool
is_reserved c = any (λ r. code c == r) reserved

unfoldable pub has_reserved : String → Bool
unfolding is_reserved
has_reserved String.[] = false
has_reserved (String.◌∷◌ c s) = is_reserved c || has_reserved s

-- An error is its text, and `none` is nil.
unfoldable pub validate_mount_pattern : String → Option String
unfolding count_verbs has_reserved
validate_mount_pattern pattern =
    if ltb 1 (count_verbs false pattern)
    then some "invalid mount pattern, only one %d allowed"
    else if has_reserved pattern
    then some "invalid mount pattern, contains reserved characters"
    else none

-- The object in an update request: none on creation, and perhaps of another type.
pub data OldObject : Type 0 where
  no_old other_object : OldObject
  old_config : DiskConfig → OldObject

abbrev pub or_else : Option String → Option String → Option String
or_else none later = later
or_else (some e) later = some e

-- ten seconds, in nanoseconds
abbrev pub min_cool_down : ℤ
min_cool_down = pos (10 * 1000000000)

-- A check that found an error ends the validation.
abbrev pub reject : Option String → Action (Option String) (Unit {0})
reject none = pure tt
reject (some e) = return (some e)

-- What the driver answered: on false without an error, `err.Error()` is a call on nil.
abbrev pub judge : Bool → Action (Option String) (Option String)
judge true = pure none
judge false = crash

module _ (q : Quantities) where
  -- the checks of the object alone, in their order
  unfoldable pub check_spec : DiskConfigSpec → Option String
  check_spec spec =
      if str_eq spec.storage_class_name ""
      then some "invalid StorageClass name"
      else if is_set q spec.policy.maximum_capacity_of_disk
          && below q spec.policy.maximum_capacity_of_disk spec.capacity
      then some "invalid new capacity, more then max"
      else or_else (validate_mount_pattern spec.mount_point_pattern) (
          if not (leb_ℤ min_cool_down spec.policy.cool_down)
          then some "minimum cool down is 10 seconds"
          else none)

  -- the checks against the object that is updated
  unfoldable pub check_update : OldObject → DiskConfigSpec → Option String
  check_update no_old spec = none
  check_update other_object spec = some "invalid old object"
  check_update (old_config old) spec =
      if not (str_eq old.spec.storage_class_name spec.storage_class_name)
      then some "storageclass name is immutable field"
      else if not (str_eq old.spec.mount_point_pattern spec.mount_point_pattern)
      then some "mount point pattern is immutable field"
      else if is_set q old.spec.capacity && exceeds q old.spec.capacity spec.capacity
      then some "shrinking disk is not supported"
      else none

  module _ (api : Api) (provisioners : List String) where
    -- The error, or none for nil. Creation validates with `no_old`.
    unfoldable pub validate : DiskConfig → OldObject → Action (Option String) (Option String)
    validate config old = do
      let class_name = config.spec.storage_class_name
      reject (check_spec config.spec)
      reject (check_update old config.spec)
      sc ←
          attempt (Call.get_storage_class class_name) (λ h. api.get_storage_class h class_name)
            λ e. return (some ("unable to fetch StorageClass: " ⧺ message e))
      if any (str_eq sc.provisioner) provisioners
          then pure tt
          else return (some "provisioner not supported")
      if api.has_driver sc.provisioner then pure tt else return (some "driver not found")
      valid ←
          attempt (Call.is_storage_class_valid sc.provisioner sc)
            (λ h. api.is_storage_class_valid h sc.provisioner sc)
            λ e. return (some ("failed to call driver: " ⧺ e))
      judge valid
