-- ===== src/Examples/Events.antt =====
-- The event service with a cache that remembers when each key was set.
use discoblock.Base.{
  ℕ, ◌+◌, String, Bool, false, Option, none, some, [], ◌∷◌, Map, get, put, remove, get-put,
  get-remove, ltb, ◌≡◌, refl, arith, eq_refl,
}
use discoblock.Kube.Exec.{err, next, done, ◌>>=◌}
use discoblock.Kube.Api.{Api, Call, Event, Related, ApiError, reference}
use discoblock.Utils.Events.{TtlCache, IsCache, send, create, event_hash, event_name}
use discoblock.Text.Decimal.{format_uint}
use discoblock.Utils.Hash.{hash}
use discoblock.Utils.Names.{render_resource_name}
use discoblock.Utils.Events.Once.{send_once}
use discoblock.Examples.World.{pod, world}

abbrev alive : ℕ → Option ℕ → Bool
alive now none = false
alive now (some since) = ltb now (since + 5)

abbrev list_cache : TtlCache (Map ℕ)
list_cache = record {
  live = λ now s k. alive now (get s k);
  set = λ now s k. put s k now;
  delete = λ s k. remove s k;
}

list_cache-IsCache : IsCache list_cache 5
list_cache-IsCache = record {
  set_lem = λ now later s k early late. rw (get-put s k k now, eq_refl k) (ground arith);
  delete_lem = λ now s k. rw (get-remove s k k, eq_refl k) refl;
}

abbrev event : Event
event = record {
  warning = false;
  namespace = "default";
  reporter = "Discoblocks";
  action = "PVC Monitor";
  reason = "New capacity of pvc-1: 2";
  note = "Operation finished: resize";
  regarding = reference pod.meta;
  related = Related.no_object;
}

abbrev refusing : Api
refusing = record world { create_event = λ h n e. err (ApiError.failed "no space") }

abbrev key : String
key =
    "discoblocks-1490954098-2470140894-991397836-2354393991-4143674958-856354043-507745826-1355045443-2166136261"

abbrev name : String
name = "discoblocks-991397836-4143674958-1355045443-682728183"

abbrev remembered : Map ℕ
remembered = (key, 7) ∷ []

sent :
    send world list_cache "manager" [] event []
    ≡ (next (none, remembered), Call.create_event name event ∷ [])
unfolding send create event_hash event_name render_resource_name format_uint hash get put ◌>>=◌
sent = refl

send_once_example :
    send world list_cache "manager" remembered event [] ≡ (done (none, remembered), [])
send_once_example =
    send_once world list_cache 5 list_cache-IsCache "manager" event [] remembered []
      (Call.create_event name event ∷ []) [] sent (omega arith) (omega arith)

refused :
    send refusing list_cache "manager" [] event []
    ≡ (next (some "unable to create event: no space", []), Call.create_event name event ∷ [])
unfolding send create event_hash event_name render_resource_name format_uint hash get put remove
    ◌>>=◌
refused = refl
