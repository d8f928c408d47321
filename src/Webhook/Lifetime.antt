-- ===== src/Webhook/Lifetime.antt =====
-- api/v1/diskconfig_webhook.go: a DiskConfig over any number of accepted updates.
use discoblock.Base.{◌<◌, String, none, some, List, ◌≡◌}
use discoblock.Base.Int.{ℤ, pos_part, neg_part}
use discoblock.Kube.Objects.{DiskConfig}
use discoblock.Kube.Quantity.{Quantity, Quantities}
use discoblock.Kube.Exec.{answer}
use discoblock.Kube.Api.{Api, Call}
use discoblock.Webhook.{old_config, validate}

-- `Chain first last`: the DiskConfig became `last` by updates that the webhook accepted.
pub data Chain (q : Quantities) (api : Api) (provisioners : List String) (first : DiskConfig)
    : DiskConfig → Type 0 where
  start : Chain q api provisioners first first
  update :
      (old new : DiskConfig) (h : List Call)
      → Chain q api provisioners first old
      → answer (validate q api provisioners new (old_config old) h).0 ≡ some none
      → Chain q api provisioners first new

-- a whole number above zero
abbrev pub IsPositive : ℤ → Type 0
IsPositive v = neg_part v < pos_part v
