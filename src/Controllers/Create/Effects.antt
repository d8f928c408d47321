-- ===== src/Controllers/Create/Effects.antt =====
-- controllers/pvc_controller.go: the calls of createPVC.
use discoblock.Base.{
  ℕ, String, Bool-cases, inl, inr, Option, none, some, List, [], ◌∷◌, ◌≡◌, ◌≢◌, refl, arith, str_eq,
}
use discoblock.Base.Int.{ℤ}
use discoblock.Kube.Objects.{
  DiskConfig, Pvc, Pod, PersistentVolume, StorageClass, TopologyTerm, VolumeAttachment, Node,
}
use discoblock.Kube.Exec.{Result, ok, err, pure, attempt, ◌>>◌}
use discoblock.Kube.Exec.Emits.{Emits, emit_rules, Emits-if, Emits-then, Emits-bind, Emits-pure}
use discoblock.Kube.Api.{Api, ApiError, Call, History, is_already_exists}
use discoblock.Utils.Names.{render_finalizer}
use discoblock.Utils.Decorate.{pvc_decorator, with_name, new_storage_class}
use discoblock.Utils.HostJobs.{render_mount_job}
use discoblock.Utils.HostJobs.Owned.{render_mount_job-owners}
use discoblock.Controllers.Volumes.{start_job}
use discoblock.Controllers.Volumes.Rules.{
  Finished, give_up-Returns, give_up-Any, find_class-told, Reads, give_up-Emits, find_class-Emits,
  find_driver-Emits, find_wait_meta-Emits, start_job-Emits,
}
use discoblock.Controllers.Waits.{Waited, ready, timed_out, starved, rounds}
use discoblock.Controllers.Waits.Calls.{wait-Emits}
use discoblock.Controllers.Create.{
  with_class, child_of, claim_name, find_node, find_stub, create_and_mount, create_pvc,
}
use discoblock.Controllers.Create.Allowed.{
  Creates, IsChild, IsRecent, IsNewClass, start, read, child_of-IsChild,
}
use discoblock.Controllers.Create.Topology.{
  class_failed, add_class_finalizer, on_class_created, create_class, topology_class,
}
use discoblock.Controllers.Create.Mounting.{
  judge_claim, ask_claim, hear_claim, ask_volume, hear_volume, ask_attachment, hear_attachment,
  Round, empty_volume, Provisioned, Attached, attachment_of, job_owner, on_claim, on_volume,
  on_attachment, wait_claim, wait_volume, wait_attachment, mount_claim,
}
use discoblock.Kube.Exec.Returns.{
  Returns, Any, Returns-pure, Returns-return, Returns-then, Returns-attempt-told,
}
use discoblock.Controllers.Waits.Enough.{Kept}
use discoblock.Controllers.Waits.Told.{Ended, wait-Ended}

module _ (other : String → ℤ → String) (api : Api) (config : DiskConfig) (pod : Pod) (parent : Pvc)
    (node_name : String) (index : ℤ) where
  abbrev Allowed : Call → Type 0
  Allowed c = Creates api config pod parent node_name index c

  reads : Reads Allowed
  reads = record { event = λ _. tt; class = λ _. tt; attachments = λ _. tt; wait_meta = λ _. tt }

  -- the class of the DiskConfig, and the node, as the server answered them
  abbrev IsClass : StorageClass → Type 0
  IsClass sc = (h : History) × (api.get_storage_class h config.spec.storage_class_name ≡ ok sc)

  abbrev IsNode : Node → Type 0
  IsNode node = (h : History) × (api.get_node h node_name ≡ ok node)

  abbrev AreTerms : StorageClass → List TopologyTerm → Type 0
  AreTerms sc terms =
      (node : Node) × (h : History) × IsNode node
      × (api.get_allowed_topology h sc.provisioner node ≡ ok terms)

  abbrev IsNew : StorageClass → Type 0
  IsNew sc = IsNewClass api config pod parent node_name index sc

  add_finalizer-Emits :
      (new sc : StorageClass)
      → IsNew new
      → ((h : History) × (api.get_storage_class h new.name ≡ ok sc))
      → Emits Allowed (
          add_class_finalizer api config pod sc
            (render_finalizer config.name (config.namespace ∷ [])))
  add_finalizer-Emits new sc is (h, told) =
      let allowed : Allowed (
          Call.update_storage_class (record sc {
            meta = record (sc.meta) {
              finalizers =
                  api.add_finalizer sc.finalizers
                    (render_finalizer config.name (config.namespace ∷ []));
            };
          })) =
        (new, h, sc, is, told, refl) in
      search (emit_rules, allowed, give_up-Emits api reads)

  on_class_created-Emits :
      (sc : StorageClass) (r : Result ApiError (Unit {0}))
      → IsNew sc
      → Emits Allowed (on_class_created api config pod sc r)
  on_class_created-Emits sc (ok u) is = search emit_rules
  on_class_created-Emits sc (err e) is =
      Emits-if (is_already_exists e) _ (class_failed api config pod "create" sc.name e)
        (λ _.
          Emits-then (Unit {0}) Finished
            (λ old. (h : History) × (api.get_storage_class h sc.name ≡ ok old))
            (attempt (Call.get_storage_class sc.name) (λ h. api.get_storage_class h sc.name)
              (class_failed api config pod "fetch" sc.name))
            (λ old.
              add_class_finalizer api config pod old
                (render_finalizer config.name (config.namespace ∷ []))
              >> pure (some old.name))
            (Returns-attempt-told _ _ (class_failed api config pod "fetch" sc.name)
              (λ x. give_up-Returns api _) λ h old told. (h, told))
            (search (emit_rules, give_up-Emits api reads))
            λ old told. Emits-bind _ _ (add_finalizer-Emits sc old is told) λ _. Emits-pure _)
        (λ _. give_up-Emits api reads _)

  named-Emits :
      (sc : StorageClass) (terms : List TopologyTerm) (name : Option String)
      → IsClass sc
      → AreTerms sc terms
      → terms ≢ []
      → Emits Allowed (create_class api config pod (with_name sc terms name))
  named-Emits sc terms none is are some_terms = give_up-Emits api reads _
  named-Emits sc terms (some name) (h, found) (node, g, (f, node_found), told) some_terms =
      let new : StorageClass = record sc {
        meta = record (sc.meta) { uid = ""; resource_version = ""; name = name };
        volume_binding_mode = some "Immediate";
        allowed_topologies = terms;
      } in
      let is : IsNew new = record {
        before_class = h;
        before_node = f;
        before_terms = g;
        class = sc;
        node = node;
        terms = terms;
        name = name;
        found = found;
        node_found = node_found;
        told = told;
        restricted = some_terms;
        copied = refl;
      } in
      search (emit_rules, on_class_created-Emits, is)

  create_class-Emits :
      (sc : StorageClass) (terms : List TopologyTerm)
      → IsClass sc
      → AreTerms sc terms
      → terms ≢ []
      → Emits Allowed (create_class api config pod (new_storage_class sc terms))
  unfolding new_storage_class
  create_class-Emits sc terms is are some_terms = named-Emits sc terms _ is are some_terms

  topology_class-Emits :
      (sc : StorageClass) (terms : List TopologyTerm)
      → IsClass sc
      → AreTerms sc terms
      → Emits Allowed (topology_class api config pod sc terms)
  unfolding topology_class
  topology_class-Emits sc [] is are = search emit_rules
  topology_class-Emits sc (t ∷ ts) is are =
      create_class-Emits sc (t ∷ ts) is are (λ e. ground (arith, e))

  module _ (deadline : ℕ) where
    on_claim-Emits :
        (w : Waited (Round Pvc) Pvc) → Emits Allowed (on_claim other api config pod deadline w)
    on_claim-Emits (ready pvc) = search emit_rules
    on_claim-Emits (timed_out (pvc, e)) = give_up-Emits api reads _
    on_claim-Emits starved = search emit_rules

    wait_claim-Emits : (pvc : Pvc) → Emits Allowed (wait_claim other api config pod deadline pvc)
    unfolding wait_claim
    wait_claim-Emits pvc =
        Emits-bind _ _
          (wait-Emits api deadline (ask_claim api) (hear_claim api)
            (rounds config.spec.policy.cool_down) (pvc, none) (λ _. tt) tt)
          λ w. on_claim-Emits w

    -- what the wait for the claim comes to
    abbrev Recent : Pvc → Type 0
    Recent pvc = IsRecent api config pod parent node_name index pvc

    judge_claim-Kept :
        (old : Pvc) (e : Option String) (h : History) (r : Result ApiError Pvc)
        → Recent old
        → api.get_pvc h old.namespace old.name ≡ r
        → Kept (λ (s : Round Pvc). Recent s.0) Recent (judge_claim (old, e) r)
    judge_claim-Kept old e h (ok pvc) (created, child, was) told =
        elim (Bool-cases (str_eq pvc.volume_name "")) [
          | inl x ↦ rw (x) (created, child, read h old pvc was told)
          | inr x ↦ rw (x) (created, child, read h old pvc was told)
        ]
    judge_claim-Kept old e h (err x) was told = was

    on_claim-Recent :
        (w : Waited (Round Pvc) Pvc)
        → Ended (λ (s : Round Pvc). Recent s.0) Recent w
        → Returns (Unit {0}) Any Recent (on_claim other api config pod deadline w)
    on_claim-Recent (ready pvc) k = Returns-pure pvc k
    on_claim-Recent (timed_out (pvc, e)) k = give_up-Any api _
    on_claim-Recent starved k = Returns-return _ tt

    wait_claim-Recent :
        (created : Pvc)
        → IsChild config parent index created
        → Returns (Unit {0}) Any Recent (wait_claim other api config pod deadline created)
    unfolding wait_claim
    wait_claim-Recent created child =
        Returns-then _ _ (λ w. on_claim other api config pod deadline w)
          (wait-Ended api deadline (ask_claim api) (hear_claim api) (Unit {0}) Any
            (λ (s : Round Pvc). Recent s.0) Recent (λ s k h. judge_claim-Kept s.0 s.1 h _ k refl)
            (rounds config.spec.policy.cool_down) (created, none) (created, child, start))
          on_claim-Recent

    on_volume-Emits :
        (w : Waited (Round PersistentVolume) Provisioned)
        → Emits Allowed (on_volume other api config pod deadline w)
    on_volume-Emits (ready v) = search emit_rules
    on_volume-Emits (timed_out (pv, e)) = give_up-Emits api reads _
    on_volume-Emits starved = search emit_rules

    wait_volume-Emits : (pvc : Pvc) → Emits Allowed (wait_volume other api config pod deadline pvc)
    unfolding wait_volume
    wait_volume-Emits pvc =
        Emits-bind _ _
          (wait-Emits api deadline (ask_volume api pvc) (hear_volume api pvc)
            (rounds config.spec.policy.cool_down) (empty_volume, none) (λ _. tt) tt)
          λ w. on_volume-Emits w

    on_attachment-Emits :
        (w : Waited (Round (Option VolumeAttachment)) Attached)
        → Emits Allowed (on_attachment other api config pod deadline w)
    on_attachment-Emits (ready a) = search emit_rules
    on_attachment-Emits (timed_out (none, e)) = search emit_rules
    on_attachment-Emits (timed_out (some va, e)) = give_up-Emits api reads _
    on_attachment-Emits starved = search emit_rules

    wait_attachment-Emits :
        (pvc : Pvc) (va : VolumeAttachment) (key : String)
        → Emits Allowed (wait_attachment other api config pod deadline pvc va key)
    unfolding wait_attachment
    wait_attachment-Emits pvc va key =
        Emits-if (str_eq key "") _ _ (λ _. Emits-pure (va, ""))
          (λ _.
            Emits-bind _ _
              (wait-Emits api deadline (ask_attachment api pvc) (hear_attachment api pvc key)
                (rounds config.spec.policy.cool_down) (some va, none) (λ _. tt) tt)
              λ w. on_attachment-Emits w)

    attachment-Allowed :
        (pvc : Pvc)
        → Recent pvc
        → (name provisioner : String)
        → Allowed (
            Call.create_volume_attachment
              (attachment_of name pod provisioner pvc.volume_name node_name))
    attachment-Allowed pvc is name provisioner = (pvc, is, refl, refl, refl)

    mount_job-Emits :
        (pvc : Pvc)
        → Recent pvc
        → (reason now fs mount_point : String) (container_ids : List String)
          (command volume_meta : String)
        → Emits Allowed (
            start_job api config pod reason (
              render_mount_job api.decode_job now pod.name pvc.name pvc.volume_name pvc.namespace
                node_name fs mount_point container_ids command volume_meta
                (job_owner parent pvc)))
    mount_job-Emits pvc is reason now fs mount_point container_ids command volume_meta =
        start_job-Emits api reads config pod reason _
          λ job e. (pvc, is, render_mount_job-owners _ _ _ _ _ _ _ _ _ _ _ _ _ job e)

    mount_claim-Emits :
        (created : Pvc)
        → IsChild config parent index created
        → (container_ids : List String) (provisioner wait_for_meta : String)
        → Emits Allowed (
            mount_claim other api config pod deadline parent created container_ids node_name index
              provisioner wait_for_meta)
    unfolding mount_claim
    mount_claim-Emits created child container_ids provisioner wait_for_meta =
        Emits-then (Unit {0}) Any Recent _ _ (wait_claim-Recent created child)
          (wait_claim-Emits created)
          λ pvc is.
            search
              (
                emit_rules,
                give_up-Emits api reads,
                wait_volume-Emits,
                wait_attachment-Emits,
                attachment-Allowed pvc is,
                mount_job-Emits pvc is,
              )
              depth 12

  create_and_mount-Emits :
      (stub : Pvc) (class_name : Option String) (container_ids : List String)
      (provisioner wait_for_meta : String)
      → Emits Allowed (
          create_and_mount other api config pod parent
            (child_of parent index (with_class class_name (pvc_decorator config stub)))
            container_ids
            node_name
            index
            provisioner
            wait_for_meta)
  unfolding create_and_mount
  create_and_mount-Emits stub class_name container_ids provisioner wait_for_meta =
      search
        (
          emit_rules,
          give_up-Emits api reads,
          mount_claim-Emits,
          child_of-IsChild config parent stub index class_name,
        )
        depth 10

  claim_name-Emits : Emits Allowed (claim_name other api config pod)
  unfolding claim_name
  claim_name-Emits = search emit_rules

  find_node-told : Returns (Unit {0}) Finished IsNode (find_node other api config pod node_name)
  unfolding find_node
  find_node-told = Returns-attempt-told _ _ _ (λ e. give_up-Returns api _) λ h node told. (h, told)

  find_node-Emits : Emits Allowed (find_node other api config pod node_name)
  unfolding find_node
  find_node-Emits = search (emit_rules, give_up-Emits api reads)

  find_stub-Emits :
      (provisioner name : String) → Emits Allowed (find_stub other api config pod provisioner name)
  unfolding find_stub
  find_stub-Emits provisioner name = search (emit_rules, give_up-Emits api reads)

  pub create_pvc-Creates :
      (container_ids : List String)
      → Emits
          (Creates api config pod parent node_name index)
          (create_pvc other api config pod parent container_ids node_name index)
  unfolding create_pvc
  create_pvc-Creates container_ids =
      Emits-then (Unit {0}) Finished IsClass _ _ (find_class-told api config pod)
        (find_class-Emits api reads config pod)
        λ sc is.
          Emits-then (Unit {0}) Finished IsNode _ _ find_node-told find_node-Emits λ node there.
            Emits-bind _ _ (find_driver-Emits api reads config pod _) λ _.
              Emits-bind _ _ claim_name-Emits λ name. Emits-bind _ _ (find_stub-Emits _ _) λ stub.
                Emits-then (Unit {0}) Finished (AreTerms sc) _ _
                  (Returns-attempt-told _ _ _ (λ e. give_up-Returns api _)
                    λ h terms told. (node, h, there, told))
                  (search (emit_rules, give_up-Emits api reads))
                  λ terms are.
                    Emits-bind _ _ (find_wait_meta-Emits api reads config pod _) λ wait_for_meta.
                      Emits-bind _ _ (topology_class-Emits sc terms is are) λ class_name.
                        create_and_mount-Emits stub class_name container_ids sc.provisioner
                          wait_for_meta
