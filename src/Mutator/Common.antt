-- ===== src/Mutator/Common.antt =====
-- mutators/pod_mutator.go: the responses of Handle, the state of its loop, and what it takes from
-- libraries and from Go's iteration over maps.
use discoblock.Base.{ℕ, String, Bool, List, Map, Option, if◌then◌else◌}
use discoblock.Base.Int.{ℤ}
use discoblock.Kube.Objects.{Pod, Pvc, AvailabilityMode}
use discoblock.Kube.Exec.{Result, return}
use discoblock.Kube.Api.{Action}

-- admission.Request, with the raw object that is decoded
pub record Request : Type 0 where
  pub name : String
  pub namespace : String
  pub dry_run : Option Bool
  pub raw : String

-- admission.Allowed, admission.Errored, and admission.PatchResponseFromRaw with its two arguments
pub data Response : Type 0 where
  allowed : String → Response
  errored : ℕ → String → Response
  patched : String → String → Response

-- The variables that the loop over the DiskConfigs changes; `volumes` has the mount point of a name.
pub record Progress : Type 0 where
  pub pod : Pod
  pub types : List AvailabilityMode
  pub volumes : Map String

pub record Library : Type 0 where
  pub decode_pod : String → Result String Pod
  pub marshal_pod : Pod → Result String String
  -- what Sprintf prints for a mount pattern with other verbs
  pub other : String → ℤ → String
  -- sort.Slice by the creation
  pub by_creation : List Pvc → List Pvc
  -- the entries of a map in the order of the n-th iteration over it
  pub visit : ℕ → Map String → List (String × String)
  -- the name with this mount point that an iteration meets first
  pub first_at : Map String → String → String
  -- the errors of labels.NewRequirement and of strconv.Atoi
  pub selector_error : String → String → String
  pub atoi_error : String → String

-- the codes of net/http
abbrev pub bad_request : ℕ
bad_request = 400

abbrev pub not_found_code : ℕ
not_found_code = 404

abbrev pub internal_error : ℕ
internal_error = 500

-- `return errorMode(code, reason, err)`
unfoldable pub error_mode : {A : Type 0} → Bool → ℕ → String → String → Action Response A
error_mode strict code reason error =
    return (if strict then Response.errored code error else Response.allowed reason)
