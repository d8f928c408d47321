-- ===== src/Utils/Events/Once.antt =====
-- pkg/utils/event.go: sending one event twice.
use mathlib.Core.Path.{subst}
use discoblock.Base.{
  ℕ, ◌+◌, ◌≤◌, ◌<◌, String, true, false, Option, none, some, List, ◌∷◌, ◌≡◌, ◌≢◌, refl, arith,
  Bool-cases, Option-cases, inl, inr,
}
use discoblock.Kube.Exec.{Result, ok, err, Flow, next, done, panic, ◌>>=◌, require, crash}
use discoblock.Kube.Exec.Returns.{Returns, Any, return_rules, Returns-then}
use discoblock.Kube.Api.{Api, ApiError, Call, Event, Related}
use discoblock.Utils.Names.{render_resource_name}
use discoblock.Utils.Events.{
  TtlCache, IsCache, finish, create, send, event_hash, event_name, related_uid,
}

module _ (api : Api) {S : Type 0} (cache : TtlCache S) (ttl : ℕ) (laws : IsCache cache ttl)
    (controller : String) where
  -- what a creation that answered nil has put into the cache
  finished :
      (s s' : S) (hash : String) (r : Result ApiError (Unit {0})) (h h' : List Call)
      → ◌≡◌ {A = Flow (Option String × S) (Option String × S) × List Call}
          (next (finish api cache controller s hash r), h)
          (next (none, s'), h')
      → s ≡ s'
  finished s s' hash (ok u) h h' e = ground arith
  finished s s' hash (err x) h h' e = ground arith

  created :
      (s s' : S) (hash name : String) (event : Event) (h h' : List Call)
      → create api cache controller s hash name event h ≡ (next (none, s'), h')
      → cache.set (api.now h) s hash ≡ s'
  unfolding create ◌>>=◌
  created s s' hash name event h h' e = elim (Bool-cases (cache.live (api.now h) s hash)) [
    | inl l ↦ absurd (ground arith)
    | inr l ↦ finished _ s' hash _ _ h' (rw (l) at e)
  ]

  live_quiet :
      (s : S) (hash name : String) (event : Event) (h : List Call)
      → cache.live (api.now h) s hash ≡ true
      → create api cache controller s hash name event h ≡ (done (none, s), h)
  unfolding create ◌>>=◌
  live_quiet s hash name event h l = rw (l) refl

  panicked :
      (s' : S) (h h' : List Call)
      → ◌≡◌ {A = Flow (Option String × S) (Option String × S) × List Call}
          (panic, h)
          (next (none, s'), h')
      → ⊥
  panicked s' h h' e = ground arith

  uid_known :
      (related : Related)
      → Returns {C = Call} {R = Option String × S}
          (related ≡ Related.nil_object)
          Any
          Any
          (require (related_uid related) crash)
  unfolding ◌>>=◌
  uid_known Related.no_object = record { at = λ h. tt }
  uid_known Related.nil_object = record { at = λ h. refl }
  uid_known (Related.object o) = record { at = λ h. tt }

  hash_known :
      (event : Event) (uid : String)
      → (hash : String) × (event_hash controller event uid ≡ some hash)
  unfolding event_hash render_resource_name
  hash_known event uid = (_, refl)

  name_known :
      (event : Event) (text : String)
      → (name : String) × (event_name controller event text ≡ some name)
  unfolding event_name render_resource_name
  name_known event text = (_, refl)

  no_panic :
      (s s' : S) (event : Event) (h h' : List Call)
      → send api cache controller s event h ≡ (next (none, s'), h')
      → related_uid event.related ≢ none
  unfolding send ◌>>=◌
  no_panic s s' event h h' e u = absurd (panicked s' h h' (rw (u) at e))

  -- While the entry of a created event lives, sending the same event again makes no call and answers
  -- nil.
  pub send_once :
      (event : Event) (s s' : S) (h h' k : List Call)
      → send api cache controller s event h ≡ (next (none, s'), h')
      → api.now h ≤ api.now k
      → api.now k < api.now h + ttl
      → send api cache controller s' event k ≡ (done (none, s'), k)
  unfolding send ◌>>=◌
  send_once event s s' h h' k e early late = elim (Option-cases (related_uid event.related)) [
    | inl u ↦ absurd (no_panic s s' event h h' e u)
    | inr (uid, u) ↦
        let (hash, hashed) = hash_known event uid in
        let (name, named) = name_known event (api.now_text h) in
        let (name', named') = name_known event (api.now_text k) in
        let made = created s s' hash name event h h' (rw (u, hashed, named) at e) in
        let lives : cache.live (api.now k) s' hash ≡ true =
          subst (λ (t : S). cache.live (api.now k) t hash ≡ true) made
            (laws.set_lem (api.now h) (api.now k) s hash early late) in
        rw (u, hashed, named') (live_quiet s' hash name' event k lives)
  ]

  failed :
      (s s' : S) (hash text : String) (r : Result ApiError (Unit {0})) (h h' : List Call)
      → ◌≡◌ {A = Flow (Option String × S) (Option String × S) × List Call}
          (next (finish api cache controller s hash r), h)
          (next (some text, s'), h')
      → cache.delete s hash ≡ s'
  failed s s' hash text (ok u) h h' e = ground arith
  failed s s' hash text (err x) h h' e = ground arith

  not_created :
      (s s' : S) (hash name text : String) (event : Event) (h h' : List Call)
      → create api cache controller s hash name event h ≡ (next (some text, s'), h')
      → cache.delete (cache.set (api.now h) s hash) hash ≡ s'
  unfolding create ◌>>=◌
  not_created s s' hash name text event h h' e = elim (Bool-cases (cache.live (api.now h) s hash)) [
    | inl l ↦ absurd (ground arith)
    | inr l ↦ failed _ s' hash text _ _ h' (rw (l) at e)
  ]

  stale_calls :
      (s : S) (hash name : String) (event : Event) (h : List Call)
      → cache.live (api.now h) s hash ≡ false
      → (create api cache controller s hash name event h).1 ≡ Call.create_event name event ∷ h
  unfolding create ◌>>=◌
  stale_calls s hash name event h l = rw (l) refl

  panicked_too :
      (s' : S) (text : String) (h h' : List Call)
      → ◌≡◌ {A = Flow (Option String × S) (Option String × S) × List Call}
          (panic, h)
          (next (some text, s'), h')
      → ⊥
  panicked_too s' text h h' e = ground arith

  -- After a creation that failed, sending the same event again makes the call again at once.
  pub send_retried :
      (event : Event) (s s' : S) (text : String) (h h' k : List Call)
      → send api cache controller s event h ≡ (next (some text, s'), h')
      → (name : String) × ((send api cache controller s' event k).1
          ≡ Call.create_event name event ∷ k)
  unfolding send ◌>>=◌
  send_retried event s s' text h h' k e = elim (Option-cases (related_uid event.related)) [
    | inl u ↦ absurd (panicked_too s' text h h' (rw (u) at e))
    | inr (uid, u) ↦
        let (hash, hashed) = hash_known event uid in
        let (name, named) = name_known event (api.now_text h) in
        let (name', named') = name_known event (api.now_text k) in
        let gone = not_created s s' hash name text event h h' (rw (u, hashed, named) at e) in
        let stale : cache.live (api.now k) s' hash ≡ false =
          subst (λ (t : S). cache.live (api.now k) t hash ≡ false) gone
            (laws.delete_lem (api.now k) _ hash) in
        (name', rw (u, hashed, named') (stale_calls s' hash name' event k stale))
  ]

  -- The service panics only for the nil pointer of a related object.
  pub send-Returns :
      (s : S) (event : Event)
      → Returns (event.related ≡ Related.nil_object) Any Any (send api cache controller s event)
  unfolding send create
  send-Returns s event =
      Returns-then _ _ _ (uid_known event.related) λ uid _. search return_rules depth 10
