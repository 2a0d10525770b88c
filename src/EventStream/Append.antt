-- ===== src/EventStream/Append.antt =====
-- What one call of `append` does, on every branch.
use offline_companion_core.Base.{
  String, ◌≡◌, refl, ap, Bool, true, false, Option, some, List, [], ◌∷◌, ◌++◌, arith, length,
  nat_eq, string_eq, pair_eq, ok, err,
}
use offline_companion_core.Base.Dict.{Dict, lookup}
use offline_companion_core.EventStream.Types.{DomainEvent}
use offline_companion_core.EventStream.Registry.{validate}
use offline_companion_core.EventStream.Store.{Persistence}
use offline_companion_core.EventStream.Stream.{
  EventStream, StreamError, reentrant, Json, prepare, post_init, append, notify, enqueue_to,
}

-- The observers that were called, in order.
abbrev pub called : {O : Type 0} → List (O × Bool) → List O
called [] = []
called ((o, _) ∷ cs) = o ∷ called cs

module _ {V T O : Type 0} where
  -- The event that `prepare` builds has the stream's name, its next number and the version of its type.
  pub record Fits (event_type : String) (s : EventStream V T O) (e : DomainEvent V T) : Type 0 where
    pub numbered : e.seq ≡ length s.events
    pub named : e.stream_id ≡ s.stream_id
    pub typed : e.event_type ≡ event_type
    pub versioned : lookup event_type s.registry ≡ some e.schema_version
    pub outside_observers : s.notifying ≡ false

  pub prepare-Fits :
      (json : Json V) (id : String) (now : T) (event_type : String) (p : Dict String V)
      (s : EventStream V T O) (e : DomainEvent V T)
      → prepare json id now event_type p s ≡ ok e
      → Fits event_type s e
  unfolding prepare post_init validate
  prepare-Fits json id now event_type p s e h = ground arith

  pub called-notify :
      (raises : O → DomainEvent V T → Bool) (e : DomainEvent V T) (os : List O)
      → called (notify raises e os) ≡ os
  unfolding notify
  called-notify raises e [] = refl
  called-notify raises e (o ∷ os) = ap (◌∷◌ o) (called-notify raises e os)

  -- A successful `append` adds one event at the end, and nothing else of the stream changes: the
  -- event has the next number, the stream's name and the registered version; it is handed to the
  -- sink, and every observer is called once, in order, whether or not calls raise.
  pub append_commits :
      (json : Json V) (raises : O → DomainEvent V T → Bool) (id : String) (now : T)
      (event_type : String) (p : Dict String V) (s : EventStream V T O)
      (sink : Option (Persistence V T)) (e : DomainEvent V T)
      → (append json raises id now event_type p s sink).result ≡ ok e
      → let a = append json raises id now event_type p s sink in
        (a.stream ≡ record s { events = s.events ++ e ∷ [] })
        × Fits event_type s e
        × (a.sink ≡ enqueue_to e sink)
        × (called a.calls ≡ s.observers)
  unfolding append
  append_commits json raises id now event_type p s sink e h =
      ground (arith, prepare-Fits json id now event_type p s, called-notify raises e s.observers)

  -- An `append` that raises leaves the stream and the sink as they were and calls no observer.
  pub append_refused :
      (json : Json V) (raises : O → DomainEvent V T → Bool) (id : String) (now : T)
      (event_type : String) (p : Dict String V) (s : EventStream V T O)
      (sink : Option (Persistence V T)) (x : StreamError)
      → (append json raises id now event_type p s sink).result ≡ err x
      → let a = append json raises id now event_type p s sink in
        (a.stream ≡ s) × (a.sink ≡ sink) × (a.calls ≡ [])
  unfolding append
  append_refused json raises id now event_type p s sink x h = ground arith

  -- From inside an observer every `append` is refused.
  pub append_reentrant :
      (json : Json V) (raises : O → DomainEvent V T → Bool) (id : String) (now : T)
      (event_type : String) (p : Dict String V) (s : EventStream V T O)
      (sink : Option (Persistence V T))
      → s.notifying ≡ true
      → (append json raises id now event_type p s sink).result ≡ err reentrant
  unfolding append
  append_reentrant json raises id now event_type p s sink h = ground arith
