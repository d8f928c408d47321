-- ===== src/Mutator/Answers.antt =====
-- mutators/pod_mutator.go: what Handle answers.
use discoblock.Base.{
  zero, String, Bool, true, arith, some, List, [], ◌∷◌, Map, ◌≡◌, refl, any, All, ◌≢◌,
}
use discoblock.Kube.Objects.{Container, DiskConfig, Pod}
use discoblock.Kube.Exec.{Result, ok, err}
use discoblock.Kube.Exec.Returns.{
  Returns, Any, return_rules, Returns-call, Returns-pure, Returns-return, Returns-then,
  Returns-bind, Returns-catch-told, Returns-answer,
}
use discoblock.Kube.Api.{Api, ApiError, Call, History}
use discoblock.Utils.HostJobs.{render_metrics_sidecar, render_metrics_proxy_sidecar}
use mathlib.Core.Path.{subst}
use discoblock.Mutator.Common.{Request, Progress, Library}
use discoblock.Mutator.Patch.{on_secret, on_marshaled, respond, sidecar_or, equip, mounted, patch}
use discoblock.Mutator.Mounts.{
  Distinct, HasClaim, claims-append, Visits, IsMounted, mount_all-IsMounted,
}
use discoblock.Mutator.Steps.{has_unknown, ListsUnknown}
use discoblock.Mutator.{of_request, finish, on_configs, list_failed, review, handle}
use discoblock.Mutator.Patched.{IsCollected, Answers, Returns-ran, Returns-plain}
use discoblock.Mutator.Prepared.{Prepared, mutate_all-Returns}

module _ (lib : Library) (api : Api) (strict : Bool) (request : Request) where
  on_secret-Returns :
      (r : Result ApiError (Unit {0}))
      → Returns (ListsUnknown api) (Answers lib api strict request) Any (on_secret lib api r)
  on_secret-Returns (ok u) = search return_rules
  on_secret-Returns (err e) = search return_rules

  sidecar-Returns :
      (reason : String) (r : Result String Container)
      → Returns
          (ListsUnknown api)
          (Answers lib api strict request)
          Any
          (sidecar_or lib api reason r)
  sidecar-Returns reason (ok c) = search return_rules
  sidecar-Returns reason (err e) = search return_rules

  -- what the pod is before it is printed
  record IsReady (prepared : Progress) (pod : Pod) : Type 0 where
    source : IsCollected lib api strict request prepared
    full : prepared.volumes ≢ []
    kept : pod.meta ≡ prepared.pod.meta
    scheduled : pod.scheduler_name ≡ "discoblocks-scheduler"
    distinct : Distinct prepared.volumes
    claims : All (HasClaim pod.volumes) prepared.volumes
    mounts : All (IsMounted prepared.volumes) pod.containers

  on_marshaled-Returns :
      (prepared : Progress) (pod : Pod) (r : Result String String)
      → IsReady prepared pod
      → lib.marshal_pod pod ≡ r
      → Returns
          (ListsUnknown api)
          (Answers lib api strict request)
          (Answers lib api strict request)
          (on_marshaled lib api request r)
  on_marshaled-Returns prepared pod (ok text) is e = Returns-pure _ (
    refl,
    record {
      prepared = prepared;
      pod = pod;
      source = is.source;
      full = is.full;
      kept = is.kept;
      marshaled = e;
      scheduled = is.scheduled;
      distinct = is.distinct;
      claims = is.claims;
      mounts = is.mounts;
    },
  )
  on_marshaled-Returns prepared pod (err m) is e = Returns-return _ tt

  respond-Returns :
      (prepared : Progress) (pod : Pod)
      → IsReady prepared pod
      → Returns
          (ListsUnknown api)
          (Answers lib api strict request)
          (Answers lib api strict request)
          (respond lib api request pod)
  unfolding respond
  respond-Returns prepared pod is = Returns-bind _ _ (Returns-call _ _) λ answer.
      Returns-bind _ _ (on_secret-Returns answer)
        λ _. on_marshaled-Returns prepared pod (lib.marshal_pod pod) is refl

  module _ (visits : Visits lib) where
    patch-Returns :
        (p : Progress)
        → IsCollected lib api strict request p
        → p.volumes ≢ []
        → Prepared lib api strict request p
        → Returns
            (ListsUnknown api)
            (Answers lib api strict request)
            (Answers lib api strict request)
            (patch lib api request p.pod p.volumes)
    unfolding patch
    patch-Returns p source full is =
        Returns-bind _ _
          (sidecar-Returns "Metrics sidecar template invalid"
            (render_metrics_sidecar api.decode_container))
          λ sidecar.
            Returns-bind _ _
              (sidecar-Returns "Metrics Proxy sidecar template invalid"
                (render_metrics_proxy_sidecar api.decode_container p.pod.name p.pod.namespace))
              λ proxy.
                respond-Returns p (mounted lib p.volumes (equip lib api p.pod sidecar proxy))
                  (record {
                    source = source;
                    full = full;
                    kept = refl;
                    scheduled = refl;
                    distinct = is.distinct;
                    claims =
                        claims-append _ _ p.volumes
                          (claims-append _ _ p.volumes (claims-append _ _ p.volumes is.claims));
                    mounts = mount_all-IsMounted lib visits p.volumes zero _;
                  })

    finish-Returns :
        (p : Progress) (disks : Map String)
        → p.volumes ≡ disks
        → IsCollected lib api strict request p
        → Prepared lib api strict request p
        → Returns
            (ListsUnknown api)
            (Answers lib api strict request)
            (Answers lib api strict request)
            (finish lib api strict request p disks)
    finish-Returns p [] e source is = Returns-return _ tt
    finish-Returns p (v ∷ vs) e source is =
        subst
          (λ (d : Map String).
            Returns (ListsUnknown api) (Answers lib api strict request)
              (Answers lib api strict request) (patch lib api request p.pod d))
          e (patch-Returns p source (λ none_left. ground (arith, e, none_left)) is)

    on_configs-Returns :
        (decoded : Pod) (configs : List DiskConfig)
        → lib.decode_pod request.raw ≡ ok decoded
        → ((h : History) × (api.list_disk_configs h (some request.namespace) ≡ ok configs))
        → (any has_unknown configs ≡ true → ListsUnknown api)
        → Returns
            (ListsUnknown api)
            (Answers lib api strict request)
            (Answers lib api strict request)
            (on_configs lib api strict request (of_request lib api strict request decoded) configs)
    on_configs-Returns decoded [] loaded listed bad = Returns-return _ tt
    on_configs-Returns decoded (config ∷ rest) loaded listed bad =
        Returns-then _ _ _
          (Returns-plain lib api strict request _ _ _ (
            Returns-ran _ _ _ _ (
              mutate_all-Returns lib api strict request _ zero (config ∷ rest) _ bad
                (record { distinct = tt; claims = tt }))))
          λ p prepared.
            finish-Returns p p.volumes refl
              (record {
                decoded = decoded;
                configs = config ∷ rest;
                loaded = loaded;
                listed = listed;
                collected = prepared.1;
              })
              prepared.0

    review-Returns :
        (decoded : Pod)
        → lib.decode_pod request.raw ≡ ok decoded
        → Returns
            (ListsUnknown api)
            (Answers lib api strict request)
            (Answers lib api strict request)
            (review lib api strict request (of_request lib api strict request decoded))
    unfolding review
    review-Returns decoded loaded =
        Returns-answer (Call.list_disk_configs (some request.namespace))
          (λ h. api.list_disk_configs h (some request.namespace)) (list_failed lib api strict)
          (on_configs lib api strict request (of_request lib api strict request decoded)) (λ e. tt)
          λ h configs told.
            on_configs-Returns decoded configs loaded (h, told)
              λ bad. (h, some request.namespace, configs, told, bad)

    -- Handle answers allowed, an error, or a patch of the request's object. A patch is printed from a
    -- pod for which it holds, with the disks that the loop over the DiskConfigs listed in the
    -- request's namespace collected for the decoded pod: there is such a disk, the name, namespace
    -- and labels are those that the loop left, the scheduler is that of Discoblocks, no two disks have
    -- one mount point, there is a volume for the claim of each disk, and every container but the proxy
    -- mounts every disk. It panics only where the server lists a DiskConfig with an unknown
    -- availability mode. The condition is that Go's iteration over a map visits all of it.
    pub handle-Answers :
        Returns
          (ListsUnknown api)
          (Answers lib api strict request)
          (Answers lib api strict request)
          (handle lib api strict request)
    unfolding handle
    handle-Answers =
        Returns-then _ _ _
          (Returns-catch-told (lib.decode_pod request.raw) _ (λ e. Returns-return _ tt))
          λ decoded loaded. review-Returns decoded loaded
