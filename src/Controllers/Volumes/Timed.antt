-- ===== src/Controllers/Volumes/Timed.antt =====
-- controllers/pvc_controller.go: the steps that createPVC and resizePVC share, from a time on.
use discoblock.Base.{ℕ, String}
use discoblock.Kube.Objects.{DiskConfig, Pod, Job}
use discoblock.Kube.Exec.{Result, ok, err}
use discoblock.Kube.Exec.Returns.{Any}
use discoblock.Kube.Exec.After.{Steady, After, after_rules}
use discoblock.Kube.Api.{Api, Event}
use discoblock.Controllers.Volumes.{
  notify, give_up, find_class, find_driver, find_wait_meta, start_job,
}
use discoblock.Controllers.Volumes.Rules.{Finished}

module _ (api : Api) (steady : Steady api.now) {t : ℕ} {X : Type 0} where
  pub notify-After : (event : Event) → After api.now t X Finished Any (notify api event)
  unfolding notify
  notify-After event = search (after_rules, steady)

  pub give_up-After :
      {A : Type 0} {Q : A → Type 0} (event : Event)
      → After api.now t X Finished Q (give_up api {A = A} event)
  unfolding give_up
  give_up-After event = search (after_rules, notify-After)

  module _ (config : DiskConfig) (pod : Pod) where
    pub find_class-After : After api.now t X Finished Any (find_class api config pod)
    unfolding find_class
    find_class-After = search (after_rules, steady, give_up-After)

    pub find_driver-After :
        (name : String) → After api.now t X Finished Any (find_driver api config pod name)
    unfolding find_driver
    find_driver-After name = search (after_rules, give_up-After)

    pub find_wait_meta-After :
        (name : String) → After api.now t X Finished Any (find_wait_meta api config pod name)
    unfolding find_wait_meta
    find_wait_meta-After name = search (after_rules, steady, give_up-After)

    pub start_job-After :
        (reason : String) (r : Result String Job)
        → After api.now t X Finished Any (start_job api config pod reason r)
    unfolding start_job
    start_job-After reason (err e) = search after_rules
    start_job-After reason (ok job) = search (after_rules, steady, give_up-After)
