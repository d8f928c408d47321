-- ===== src/Mutator/Claims.antt =====
-- mutators/pod_mutator.go: the claim of one DiskConfig, with its class for a topology, and the claims
-- that are there already.
use discoblock.Base.{
  ℕ, String, ◌⧺◌, Bool, true, false, Option, none, some, List, [], ◌∷◌, Map, get, put,
  if◌then◌else◌, str_eq,
}
use discoblock.Base.Int.{ℤ}
use discoblock.Text.Decimal.{atoi}
use discoblock.Kube.Objects.{
  DiskConfig, Pvc, StorageClass, TopologyTerm, AvailabilityMode, read_write_once,
}
use discoblock.Kube.Exec.{Result, ok, err, pure, return, call, attempt, ◌>>=◌, ◌>>◌}
use discoblock.Kube.Api.{Api, Action, ApiError, Call, message, is_already_exists}
use discoblock.Utils.Names.{render_finalizer}
use discoblock.Utils.Mount.{render_mount_point}
use discoblock.Utils.Decorate.{new_storage_class}
use discoblock.Mutator.Common.{Response, errored, Library, error_mode, internal_error}

abbrev pub is_once : AvailabilityMode → Bool
is_once read_write_once = true
is_once _ = false

abbrev pub with_class : Option String → Pvc → Pvc
with_class none pvc = pvc
with_class (some name) pvc = record pvc { storage_class_name = some name }

module _ (lib : Library) (api : Api) (strict : Bool) where
  abbrev fail : {A : Type 0} → String → ApiError → Action Response A
  fail what e = return (errored internal_error (what ⧺ message e))

  abbrev pub on_class : StorageClass → Result ApiError (Unit {0}) → Action Response (Option String)
  on_class sc (ok _) = pure (some sc.name)
  on_class sc (err e) = if is_already_exists e then pure (some sc.name) else fail "" e

  abbrev pub create_class : Option StorageClass → Action Response (Option String)
  create_class none =
      error_mode strict internal_error
        "Failed to get NewStorageClass: failed to render RenderResourceName of tmp StorageClass: missing name elements"
        "failed to get NewStorageClass: failed to render RenderResourceName of tmp StorageClass: missing name elements"
  create_class (some sc) =
      call (Call.create_storage_class sc) (λ h. api.create_storage_class h sc) >>= λ answer.
      on_class sc answer

  abbrev pub on_terms : StorageClass → List TopologyTerm → Action Response (Option String)
  on_terms sc [] = pure none
  on_terms sc (t ∷ ts) = create_class (new_storage_class sc (t ∷ ts))

  unfoldable pub topology_class : StorageClass → String → Action Response (Option String)
  unfolding error_mode attempt ◌>>=◌
  topology_class sc node_name = if str_eq node_name "" then pure none else do
    node ← attempt (Call.get_node node_name) (λ h. api.get_node h node_name) (fail "")
    terms ←
        attempt (Call.get_allowed_topology sc.provisioner node)
          (λ h. api.get_allowed_topology h sc.provisioner node)
          λ e.
            error_mode strict internal_error ("Failed to get GetStorageClassAllowedTopology: " ⧺ e)
              ("failed to get GetStorageClassAllowedTopology: " ⧺ e)
    on_terms sc terms

  abbrev pub add_claim_finalizer : Pvc → String → Action Response (Unit {0})
  add_claim_finalizer pvc finalizer =
      if api.contains_finalizer pvc.finalizers finalizer
      then pure tt
      else let updated = record pvc {
        meta = record (pvc.meta) { finalizers = api.add_finalizer pvc.finalizers finalizer };
      } in
        attempt (Call.update_pvc updated) (λ h. api.update_pvc h updated)
          (fail ("unable to update PVC finalizer " ⧺ pvc.name ⧺ ": "))

  abbrev pub index_of : String → Option ℤ → Action Response ℤ
  index_of text (some index) = pure index
  index_of text none =
      error_mode strict internal_error ("Unable to convert index: " ⧺ text)
        ("unable to convert index: " ⧺ lib.atoi_error text)

  abbrev pub child_index : Option String → Action Response ℤ
  child_index none =
      error_mode strict internal_error "Volume index not found" "volume index not found"
  child_index (some text) = index_of text (atoi text)

  unfoldable pub add_live_child : DiskConfig → Pvc → Map String → Action Response (Map String)
  unfolding error_mode attempt ◌>>=◌
  add_live_child config child mounts = do
    add_claim_finalizer child (render_finalizer config.name [])
    index ← child_index (get child.labels "discoblocks-index")
    pure (
        put mounts child.name
          (render_mount_point lib.other config.spec.mount_point_pattern child.name index))

  -- one round of the loop over the children of a claim
  abbrev pub add_child : Option ℕ → DiskConfig → Pvc → Map String → Action Response (Map String)
  add_child (some t) config child mounts = pure mounts
  add_child none config child mounts = add_live_child config child mounts

  unfoldable pub add_children : DiskConfig → List Pvc → Map String → Action Response (Map String)
  unfolding add_live_child ◌>>=◌
  add_children config [] mounts = pure mounts
  add_children config (child ∷ rest) mounts =
      add_child child.deleted config child mounts >>= λ mounts'. add_children config rest mounts'

  unfoldable pub find_children : DiskConfig → Pvc → Map String → Action Response (Map String)
  unfolding error_mode attempt ◌>>=◌ add_children
  find_children config pvc mounts = do
    if api.is_requirement "discoblocks-parent" pvc.name
        then pure tt
        else error_mode strict internal_error
            ("Unable to parse PVC label selectors: discoblocks-parent=" ⧺ pvc.name)
            ("unable to parse PVC label selectors: "
              ⧺ lib.selector_error "discoblocks-parent" pvc.name)
    children ←
        attempt (Call.list_pvcs config.namespace "discoblocks-parent" pvc.name)
          (λ h. api.list_pvcs h config.namespace "discoblocks-parent" pvc.name)
          (fail "unable to fetch PVCs: ")
    add_children config (lib.by_creation children) mounts

  -- the claim is there already
  unfoldable pub reuse_claim : DiskConfig → Pvc → Map String → Action Response (Map String)
  unfolding attempt ◌>>=◌ find_children
  reuse_claim config claim mounts = do
    pvc ←
        attempt (Call.get_pvc claim.namespace claim.name)
          (λ h. api.get_pvc h claim.namespace claim.name)
          (fail ("unable to fetch PVC " ⧺ claim.name ⧺ ": "))
    add_claim_finalizer pvc (render_finalizer config.name [])
    if is_once config.spec.availability_mode then pure mounts else find_children config pvc mounts

  abbrev pub on_claim :
      DiskConfig → Pvc → Map String → Result ApiError (Unit {0}) → Action Response (Map String)
  on_claim config pvc mounts (ok _) = pure mounts
  on_claim config pvc mounts (err e) =
      if is_already_exists e then reuse_claim config pvc mounts else fail "unable to create PVC: " e

  -- The part that a dry run skips: the mount points of the claim and its children by their names.
  unfoldable pub create_claim :
      DiskConfig → StorageClass → String → Pvc → Map String → Action Response (Map String)
  unfolding topology_class reuse_claim ◌>>=◌
  create_claim config sc node_name stub mounts = do
    class_name ← topology_class sc node_name
    let pvc = with_class class_name stub
    answer ← call (Call.create_pvc pvc) λ h. api.create_pvc h pvc
    on_claim config pvc mounts answer
