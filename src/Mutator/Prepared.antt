-- ===== src/Mutator/Prepared.antt =====
-- mutators/pod_mutator.go: the loop of Handle keeps the pod and the volumes in step.
use discoblock.Base.{ℕ, suc, String, Bool, true, List, [], ◌∷◌, ◌≡◌, arith, any}
use discoblock.Kube.Objects.{DiskConfig}
use discoblock.Kube.Exec.Returns.{Returns, Returns-if, Returns-pure, Returns-then, Returns-bind}
use discoblock.Kube.Api.{Api}
use discoblock.Utils.Decorate.{pvc_decorator}
use discoblock.Mutator.Common.{Request, Progress, Library}
use discoblock.Mutator.Mounts.{IsPrepared, with_claim-IsPrepared}
use discoblock.Mutator.Steps.{
  IsPlain, has_unknown, ListsUnknown, error_mode-Returns, claim_mounts-Returns,
  daemon_types-Returns, name_pod-Returns, find_class-Returns, claim_name-Returns, find_stub-Returns,
}
use discoblock.Mutator.{is_selected, add_mount, add_mounts, mutate, consider, mutate_all}

module _ (lib : Library) (api : Api) (strict : Bool) (request : Request) where
  abbrev pub Prepared : Progress → Type 0
  Prepared p = IsPrepared p.pod.volumes p.volumes

  add_mount-Returns :
      (p : Progress) (name mp : String)
      → Prepared p
      → Returns (ListsUnknown api) IsPlain Prepared (add_mount lib api strict p name mp)
  unfolding add_mount
  add_mount-Returns p name mp i =
      Returns-if _ _ _ (λ _. error_mode-Returns lib api strict request _ _ _)
        (λ free. Returns-pure _ (with_claim-IsPrepared p name mp i free))

  add_mounts-Returns :
      (mounts : List (String × String)) (p : Progress)
      → Prepared p
      → Returns (ListsUnknown api) IsPlain Prepared (add_mounts lib api strict mounts p)
  unfolding add_mounts
  add_mounts-Returns [] p i = Returns-pure p i
  add_mounts-Returns ((name, mp) ∷ rest) p i =
      Returns-then _ _ _ (add_mount-Returns p name mp i) λ p' i'. add_mounts-Returns rest p' i'

  mutate-Returns :
      (node_name : String) (i : ℕ) (config : DiskConfig) (p : Progress)
      → (has_unknown config ≡ true → ListsUnknown api)
      → Prepared p
      → Returns
          (ListsUnknown api)
          IsPlain
          Prepared
          (mutate lib api strict request node_name i config p)
  unfolding mutate
  mutate-Returns node_name i config p bad prepared =
      Returns-bind _ _ (daemon_types-Returns lib api strict request node_name p.pod p.types _)
        λ types. Returns-then _ _ _ (name_pod-Returns lib api strict request p.pod) λ named same.
          Returns-bind _ _ (find_class-Returns lib api strict request config) λ sc.
            Returns-bind _ _ (claim_name-Returns lib api strict request config node_name bad)
              λ name.
                Returns-bind _ _
                  (find_stub-Returns lib api strict request config sc.provisioner name)
                  λ stub.
                    Returns-bind _ _
                      (claim_mounts-Returns lib api strict request config sc node_name
                        (pvc_decorator config stub))
                      λ mounts. add_mounts-Returns (lib.visit i mounts) _ (rw (same) prepared)

  consider-Returns :
      (node_name : String) (i : ℕ) (config : DiskConfig) (p : Progress)
      → (has_unknown config ≡ true → ListsUnknown api)
      → Prepared p
      → Returns
          (ListsUnknown api)
          IsPlain
          Prepared
          (consider lib api strict request node_name i config p)
  consider-Returns node_name i config p bad prepared =
      Returns-if (is_selected p.pod config) _ _
        (λ _. mutate-Returns node_name i config p bad prepared) (λ _. Returns-pure p prepared)

  pub mutate_all-Returns :
      (node_name : String) (i : ℕ) (configs : List DiskConfig) (p : Progress)
      → (any has_unknown configs ≡ true → ListsUnknown api)
      → Prepared p
      → Returns
          (ListsUnknown api)
          IsPlain
          Prepared
          (mutate_all lib api strict request node_name i configs p)
  unfolding mutate_all
  mutate_all-Returns node_name i [] p bad prepared = Returns-pure p prepared
  mutate_all-Returns node_name i (config ∷ rest) p bad prepared =
      Returns-then _ _ _
        (consider-Returns node_name i config p (λ h. bad (ground (arith, h))) prepared)
        λ p' prepared'.
          mutate_all-Returns node_name (suc i) rest p' (λ h. bad (ground (arith, h))) prepared'
