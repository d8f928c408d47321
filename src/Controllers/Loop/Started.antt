-- ===== src/Controllers/Loop/Started.antt =====
-- controllers/pvc_controller.go: the work that a round of the monitor starts is done.
use discoblock.Base.{true, ◌⧺◌, List, [], ◌∷◌, ◌++◌, ◌⊎◌, inl, inr, refl, sym, String, Among}
use mathlib.Core.Path.{subst}
use discoblock.Kube.Objects.{DiskConfig, Pvc, Pod}
use discoblock.Kube.Quantity.{Quantity, Quantities}
use discoblock.Kube.Exec.Returns.{Returns, Any, Never, Returns-pure, Returns-bind, Returns-panics}
use discoblock.Kube.Exec.Emits.{Emits, Emits-implies, Emits-detached, Added-attempt}
use discoblock.Kube.Exec.Reaches.{
  Reaches, Lasting, lasting, Reaches-surely, Reaches-first, Reaches-then, Reaches-detached,
  Returns-detached,
}
use discoblock.Kube.Api.{Api, Call, History, Made, message}
use discoblock.Controllers.Volumes.{monitor_event, give_up}
use discoblock.Controllers.Volumes.Rules.{Finished, give_up-Emits}
use discoblock.Controllers.Waits.Enough.{Ticks}
use discoblock.Controllers.Resize.{with_request, resize_pvc}
use discoblock.Controllers.Resize.Effects.{Resizes-Reads, after_update-Emits, resize_pvc-Resizes}
use discoblock.Controllers.Resize.Ends.{VolumeWithoutCsi, AttachmentWithoutMeta, resize_pvc-Returns}
use discoblock.Controllers.Create.Effects.{create_pvc-Creates}
use discoblock.Controllers.Create.Ends.{create_pvc-Ends}
use discoblock.Controllers.Create.Waiting.{AttachmentUnclear}
use discoblock.Controllers.Rounds.{Work, create, grow, Round, run_work}
use discoblock.Controllers.Loop.{run_all}

-- The call is in the history.
pub Made-Lasting : (c : Call) → Lasting (Made c)
Made-Lasting c = record { add = added }
  where
    added : (made h : List Call) → Made c h → Made c (made ++ h)
    added [] h k = k
    added (d ∷ made) h k = inr (added made h k)

-- What a panic of the work shows: the server answers a volume without CSI, an attachment without the
-- metadata that is waited for, or no single attachment of a volume.
abbrev pub WorkPanic : Api → Type 0
WorkPanic api = (VolumeWithoutCsi api ⊎ AttachmentWithoutMeta api) ⊎ AttachmentUnclear api

module _ {F : Type 0} (q : Quantities) (api : Api) (ticks : Ticks api) (round : Round F) where
  run_work-Returns :
      (work : Work) → Returns (WorkPanic api) Finished Any (run_work q api round work)
  unfolding run_work
  run_work-Returns (create config pod parent container_ids node index) =
      Returns-panics (λ x. inr x) _
        (record {
          at = λ h.
              create_pvc-Ends round.other api ticks config pod parent container_ids node index h;
        })
  run_work-Returns (grow config pod capacity pvc node) =
      Returns-panics (λ x. inl x) _ (resize_pvc-Returns api config pod capacity pvc node)

  pub run_work-Emits : (work : Work) → Emits Any (run_work q api round work)
  unfolding run_work
  run_work-Emits (create config pod parent container_ids node index) =
      Emits-implies (λ _ _. tt) _
        (create_pvc-Creates round.other api config pod parent node index container_ids)
  run_work-Emits (grow config pod capacity pvc node) =
      Emits-implies (λ _ _. tt) _ (resize_pvc-Resizes api config pod capacity pvc node)

  run_all-Returns :
      (works : List Work) → Returns (WorkPanic api) Never Any (run_all q api round works)
  unfolding run_all
  run_all-Returns [] = Returns-pure tt tt
  run_all-Returns (work ∷ earlier) =
      Returns-bind _ _ (run_all-Returns earlier)
        λ _. Returns-detached Finished Any _ (run_work-Returns work)

  module _ (config : DiskConfig) (pod : Pod) (capacity : Quantity) (pvc : Pvc) (node : String) where
    abbrev Updated : History → Type 0
    Updated = Made (Call.update_pvc (with_request capacity pvc))

    -- The update is the first call of resizePVC.
    resize_pvc-Made : (h : History) → Updated (resize_pvc api config pod capacity pvc node h).1
    unfolding resize_pvc
    resize_pvc-Made h =
        lasting Updated (Made-Lasting _) (Call.update_pvc (with_request capacity pvc) ∷ h) _
          (Added-attempt _ (λ k. api.update_pvc k (with_request capacity pvc))
            (λ e. give_up api (
              monitor_event true pod ("Failed to update PVC for " ⧺ config.name ⧺ ": " ⧺ pvc.name)
                (message e) pvc.meta))
            _ h (λ e. give_up-Emits api (Resizes-Reads capacity pvc) _)
            λ _. after_update-Emits api config pod capacity pvc _ node refl)
          (inl refl)

    -- The work that was started is run, one after another, until one of it panics: where a claim is
    -- to grow, it is updated.
    pub run_all-Reaches :
        (works : List Work)
        → Among (grow config pod capacity pvc node) works
        → Reaches (WorkPanic api) Updated (run_all q api round works)
    unfolding run_all
    run_all-Reaches [] k = elim k [ ]
    run_all-Reaches (work ∷ earlier) (inl same) =
        Reaches-then Any _ _ (run_all-Returns earlier) λ _ _. Reaches-detached _ (
          Reaches-surely _ (
            subst (λ x. (h : History) → Updated (run_work q api round x h).1) (sym same)
              resize_pvc-Made))
    run_all-Reaches (work ∷ earlier) (inr later) =
        Reaches-first _ _ (Made-Lasting _) (run_all-Reaches earlier later)
          (λ _. Emits-detached _ (run_work-Emits work))
