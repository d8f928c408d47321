-- ===== src/Utils/Events.antt =====
-- pkg/utils/event.go: the event service, which leaves out an event that was sent a moment ago.
pub mod Once
use discoblock.Base.{
  ℕ, ◌+◌, ◌≤◌, ◌<◌, String, Bool, true, false, Option, none, some, [], ◌∷◌, if◌then◌else◌, ◌⧺◌, ◌≡◌,
  ◌≢◌,
}
use discoblock.Kube.Exec.{Result, ok, err, pure, return, crash, call, observe, require, ◌>>=◌, ◌>>◌}
use discoblock.Kube.Api.{Api, Action, ApiError, Call, Event, Related, message}
use discoblock.Utils.Names.{render_resource_name}

-- github.com/jellydator/ttlcache, a parameter. `live` is `Get(key) != nil && !IsExpired()` at a time.
pub record TtlCache (S : Type 0) : Type 0 where
  pub live : ℕ → S → String → Bool
  pub set : ℕ → S → String → S
  pub delete : S → String → S

-- What its documentation promises of one key: a set entry is live until its time to live is over, a
-- deleted one is not live.
pub record IsCache {S : Type 0} (cache : TtlCache S) (ttl : ℕ) : Type 0 where
  pub set_lem :
      (now later : ℕ) (s : S) (k : String)
      → now ≤ later
      → later < now + ttl
      → cache.live later (cache.set now s k) k ≡ true
  pub delete_lem : (now : ℕ) (s : S) (k : String) → cache.live now (cache.delete s k) k ≡ false

abbrev kind_text : Bool → String
kind_text true = "Warning"
kind_text false = "Normal"

-- `related.GetUID()`; `none` is its panic on a nil pointer in the interface.
abbrev pub related_uid : Related → Option String
related_uid Related.no_object = some ""
related_uid Related.nil_object = none
related_uid (Related.object o) = some o.uid

-- the key of the cache
unfoldable pub event_hash : String → Event → String → Option String
event_hash controller event uid = render_resource_name true (
    kind_text event.warning
    ∷ event.namespace
    ∷ controller
    ∷ event.reporter
    ∷ event.action
    ∷ event.reason
    ∷ event.note
    ∷ event.regarding.uid
    ∷ uid
    ∷ [])

unfoldable pub event_name : String → Event → String → Option String
event_name controller event now_text =
    render_resource_name true (controller ∷ event.action ∷ event.regarding.uid ∷ now_text ∷ [])

module _ (api : Api) {S : Type 0} (cache : TtlCache S) (controller : String) where
  -- The answer of the service, an error or nil, with its cache.
  abbrev pub Answer : Type 0
  Answer = Option String × S

  -- The creation; a failed one takes the entry out of the cache again.
  abbrev finish : S → String → Result ApiError (Unit {0}) → Answer
  finish s hash (ok _) = (none, s)
  finish s hash (err e) = (some ("unable to create event: " ⧺ message e), cache.delete s hash)

  unfoldable pub create : S → String → String → Event → Action Answer Answer
  create s hash name event = do
    now ← observe api.now
    if cache.live now s hash then return (none, s) else pure tt
    let s' = cache.set now s hash
    answer ← call (Call.create_event name event) (λ h. api.create_event h name event)
    pure (finish s' hash answer)

  unfoldable pub send : S → Event → Action Answer Answer
  unfolding create event_hash event_name
  send s event = do
    uid ← require (related_uid event.related) crash
    hash ←
        require (event_hash controller event uid) (return (some "unable to render event hash", s))
    now_text ← observe api.now_text
    name ←
        require (event_name controller event now_text)
          (return (some "unable to render event name", s))
    create s hash name event
