-- ===== src/EventStream/Stream.antt =====
-- One stream of events, core/event_stream/stream.py. The observers are compared by identity, so
-- their type `O` has an equality test; whether a call of one raises, the JSON round trip, the new
-- identifier and the clock are arguments. The flag `notifying` is the thread's own: it is set while
-- observers run. An observer's other calls on the stream are not represented.
use offline_companion_core.Base.{
  ℕ, suc, String, Bool, true, false, not, ◌&&◌, ◌||◌, Option, none, some, List, [], ◌∷◌, ◌++◌, ltb,
  leb, if◌then◌else◌, length, get_elem?, drop, any, Eq, ◌==◌, nat_eq, string_eq, pair_eq, contains,
  Result, ok, err, ◌>>=◌, ◌>>◌, guard,
}
use offline_companion_core.Base.Text.{is_empty, strip}
use offline_companion_core.Base.Dict.{Dict, insert, member}
use offline_companion_core.EventStream.Types.{DomainEvent, Payload, dict, other}
use offline_companion_core.EventStream.Registry.{Registry, RegistryError, validate}
use offline_companion_core.EventStream.Store.{Persistence, enqueue}

pub record EventStream (V T O : Type 0) : Type 0 where
  pub stream_id : String
  pub registry : Registry
  pub events : List (DomainEvent V T)
  pub observers : List O
  pub notifying : Bool
  pub trace_id : Option String

pub data StreamError : Type 0 where
  reentrant not_serializable not_empty foreign_stream seq_gap empty_trace unreadable : StreamError
  invalid : RegistryError → StreamError

-- `json.loads(json.dumps(payload))`, which may raise, and the JSON value of a text.
pub record Json (V : Type 0) : Type 0 where
  pub normalize : Dict String V → Option (Payload V)
  pub of_text : String → V

abbrev pub refused : {A : Type 0} → Result RegistryError A → Result StreamError A
refused (ok a) = ok a
refused (err e) = err (invalid e)

abbrev pub or_raise : {A E : Type 0} → Option A → E → Result E A
or_raise none e = err e
or_raise (some a) e = ok a

-- `if trace_id and "trace_id" not in payload`
unfoldable pub inject_trace :
    {V : Type 0} → (String → V) → Option String → Dict String V → Dict String V
inject_trace of_text none p = p
inject_trace of_text (some t) p =
    if not (is_empty t) && not (member "trace_id" p) then insert "trace_id" (of_text t) p else p

-- `list.remove`: the first entry that is equal.
abbrev pub remove_first : {O : Type 0} ⦃eq : Eq O⦄ → O → List O → List O
remove_first ⦃eq⦄ o [] = []
remove_first ⦃eq⦄ o (p ∷ ps) = let rest = remove_first o ps in if eq.beq p o then ps else p ∷ rest

-- What a call of `append` leaves: the stream, the sink, the calls made and the result.
pub record Appended (V T O : Type 0) : Type 0 where
  pub stream : EventStream V T O
  pub sink : Option (Persistence V T)
  pub calls : List (O × Bool)
  pub result : Result StreamError (DomainEvent V T)

module _ {V T : Type 0} where
  -- `DomainEvent.__post_init__`
  unfoldable pub post_init : Json V → DomainEvent V T → Result StreamError (DomainEvent V T)
  post_init json e = elim e.payload [
    | other v ↦ err (invalid RegistryError.payload_not_dict)
    | dict p ↦ elim (json.normalize p) [ none ↦ err not_serializable | some _ ↦ ok e ]
  ]

  abbrev pub enqueue_to : DomainEvent V T → Option (Persistence V T) → Option (Persistence V T)
  enqueue_to e none = none
  enqueue_to e (some p) = some (enqueue e p)

  abbrev pub misnumbered : ℕ → List (DomainEvent V T) → Bool
  misnumbered n [] = false
  misnumbered n (e ∷ es) = not (e.seq == n) || misnumbered (suc n) es

module _ {V T O : Type 0} where
  unfoldable pub new : String → Registry → EventStream V T O
  new stream_id registry = record {
    stream_id = stream_id;
    registry = registry;
    events = [];
    observers = [];
    notifying = false;
    trace_id = none;
  }

  -- `latest_seq`; `none` is the source's -1.
  unfoldable pub latest_seq : EventStream V T O → Option ℕ
  latest_seq s = elim s.events [ [] ↦ none | e ∷ es ↦ some (length es) ]

  -- `append` up to the commit: the guards, and the event that will be appended.
  unfoldable pub prepare :
      Json V
      → String
      → T
      → String
      → Dict String V
      → EventStream V T O
      → Result StreamError (DomainEvent V T)
  unfolding inject_trace post_init validate
  prepare json event_id now event_type payload s = do
    guard (not s.notifying) reentrant
    normalized ←
        or_raise (json.normalize (inject_trace json.of_text s.trace_id payload)) not_serializable
    version ← refused (validate event_type normalized s.registry)
    post_init json (record {
      event_id = event_id;
      stream_id = s.stream_id;
      seq = length s.events;
      event_type = event_type;
      timestamp = now;
      schema_version = version;
      payload = normalized;
    })

  -- The loop over the observers: each is called once, and whether it raised is recorded.
  unfoldable pub notify : (O → DomainEvent V T → Bool) → DomainEvent V T → List O → List (O × Bool)
  notify raises e [] = []
  notify raises e (o ∷ os) = (o, raises o e) ∷ notify raises e os

  unfoldable pub append :
      Json V
      → (O → DomainEvent V T → Bool)
      → String
      → T
      → String
      → Dict String V
      → EventStream V T O
      → Option (Persistence V T)
      → Appended V T O
  unfolding prepare notify
  append json raises event_id now event_type payload s sink =
      elim (prepare json event_id now event_type payload s) [
        | err e ↦ record { stream = s; sink = sink; calls = []; result = err e }
        | ok e ↦ record {
          stream = record s { events = s.events ++ e ∷ [] };
          sink = enqueue_to e sink;
          calls = notify raises e s.observers;
          result = ok e;
        }
      ]

  -- `trace_context`: the token is the value to put back.
  unfoldable pub enter_trace :
      String → EventStream V T O → Result StreamError (EventStream V T O × Option String)
  enter_trace trace_id s =
      if is_empty (strip trace_id)
      then err empty_trace
      else ok (record s { trace_id = some (strip trace_id) }, s.trace_id)

  unfoldable pub exit_trace : Option String → EventStream V T O → EventStream V T O
  exit_trace token s = record s { trace_id = token }

  unfoldable pub restore_events :
      List (DomainEvent V T) → EventStream V T O → Result StreamError (EventStream V T O)
  restore_events es s = do
    guard (elim s.events [ [] ↦ true | e ∷ r ↦ false ]) not_empty
    guard (not (any (λ e. not (e.stream_id == s.stream_id)) es)) foreign_stream
    guard (not (misnumbered 0 es)) seq_gap
    ok (record s { events = s.events ++ es })

  unfoldable pub get_events : ℕ → EventStream V T O → List (DomainEvent V T)
  get_events from_seq s = if leb (length s.events) from_seq then [] else drop from_seq s.events

  unfoldable pub get_event : ℕ → EventStream V T O → Option (DomainEvent V T)
  get_event seq s = if ltb seq (length s.events) then get_elem? s.events seq else none

module _ {V T O : Type 0} ⦃eq : Eq O⦄ where
  unfoldable pub subscribe : O → EventStream V T O → EventStream V T O
  subscribe o s = record s { observers = s.observers ++ o ∷ [] }

  unfoldable pub unsubscribe : O → EventStream V T O → EventStream V T O
  unsubscribe o s =
      if contains s.observers o then record s { observers = remove_first o s.observers } else s
