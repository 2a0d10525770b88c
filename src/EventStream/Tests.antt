-- ===== src/EventStream/Tests.antt =====
-- The event stream on a small stream of two events.
use offline_companion_core.Base.{
  ℕ, String, ◌≡◌, refl, ◌≢◌, Bool, true, false, not, Option, none, some, List, [], ◌∷◌, arith,
  nat_beq, ◌==◌, nat_eq, string_eq, pair_eq, ok, err,
}
use offline_companion_core.EventStream.Types.{Payload, DomainEvent, dict}
use offline_companion_core.EventStream.Registry.{Registry}
use offline_companion_core.EventStream.Store.{
  Row, Persistence, Codec, row_with, row_of, rows_of, write_rows, flush_batch, insert_or_ignore,
  write_loop, load_stream, insert_all,
}
use offline_companion_core.EventStream.Stream.{EventStream, reentrant, Json, append, new, prepare}
use offline_companion_core.EventStream.Append.{append_commits, called, Fits}
use offline_companion_core.EventStream.Batches.{write_loop_drained}
use offline_companion_core.EventStream.Replay.{RoundTrips, load_stream-write_loop}
use offline_companion_core.EventStream.History.{here, next, appends, IsNumbered, Reach-IsNumbered}

abbrev plain_json : Json ℕ
plain_json = record { normalize = λ d. some (dict d); of_text = λ s. 0 }

abbrev known_types : Registry
known_types = ("task/started", 1) ∷ []

abbrev one_raises : ℕ → DomainEvent ℕ ℕ → Bool
one_raises o e = nat_beq o 1

abbrev event_at : String → ℕ → DomainEvent ℕ ℕ
event_at id n = record {
  event_id = id;
  stream_id = "main";
  seq = n;
  event_type = "task/started";
  timestamp = 5;
  schema_version = 1;
  payload = dict [];
}

abbrev watched : Bool → EventStream ℕ ℕ ℕ
watched notifying = record {
  stream_id = "main";
  registry = known_types;
  events = event_at "a" 0 ∷ [];
  observers = 1 ∷ 2 ∷ [];
  notifying = notifying;
  trace_id = none;
}

abbrev no_sink : Option (Persistence ℕ ℕ)
no_sink = none

-- Only the empty dict has a text.
abbrev tiny_dumps : Payload ℕ → Option String
tiny_dumps (dict []) = some "{}"
tiny_dumps _ = none

abbrev tiny : Codec ℕ
tiny = record { dumps = tiny_dumps; loads = λ t. some (dict []) }

tiny-RoundTrips : RoundTrips tiny
tiny-RoundTrips [] t h = refl
tiny-RoundTrips (e ∷ d) t h = absurd (ground arith)

abbrev row_at : String → ℕ → Row ℕ
row_at id n = row_with (event_at id n) "{}"

abbrev sink_of : List (Row ℕ) → List (DomainEvent ℕ ℕ) → Persistence ℕ ℕ
sink_of rows queue = record {
  rows = rows;
  write_queue = queue;
  closed = false;
  recovery_mode = false;
}

-- A second event: both observers are called, though the first raises.
append_ok :
    (append plain_json one_raises "b" 5 "task/started" [] (watched false) no_sink).result
    ≡ ok (event_at "b" 1)
unfolding append prepare
append_ok = refl

append_unknown :
    (append plain_json one_raises "b" 5 "task/ended" [] (watched true) no_sink).result
    ≡ err reentrant
unfolding append prepare
append_unknown = refl

append_commits_example :
    let a = append plain_json one_raises "b" 5 "task/started" [] (watched false) no_sink in
    (a.stream ≡ record (watched false) { events = event_at "a" 0 ∷ event_at "b" 1 ∷ [] })
    × Fits "task/started" (watched false) (event_at "b" 1)
    × (a.sink ≡ none)
    × (called a.calls ≡ 1 ∷ 2 ∷ [])
append_commits_example =
    append_commits plain_json one_raises "b" 5 "task/started" [] (watched false) no_sink
      (event_at "b" 1) append_ok

Reach-IsNumbered_example :
    IsNumbered
      (append plain_json one_raises "a" 5 "task/started" []
        (new {O = ℕ} "main" known_types)
        no_sink).stream
Reach-IsNumbered_example =
    Reach-IsNumbered "main" known_types
      (next here (appends plain_json one_raises "a" 5 "task/started" [] no_sink))

-- The first batch takes one event, the second the rest; SQLite refuses the second event.
abbrev refuses_b : Row ℕ → Bool
refuses_b r = not (r.event_id == "b")

abbrev queued : List (DomainEvent ℕ ℕ)
queued = event_at "a" 0 ∷ event_at "b" 1 ∷ event_at "c" 2 ∷ []

emptied :
    (writable : Row ℕ → Bool)
    → (write_loop tiny writable (1 ∷ 2 ∷ []) (sink_of [] queued)).write_queue ≡ []
unfolding write_loop
emptied writable = refl

string_ne : (s t : String) → (s == t) ≡ false → s ≢ t
string_ne s t h = ground (arith, string_eq.beq_iff s t)

write_loop_drained_example :
    (write_loop tiny refuses_b (1 ∷ 2 ∷ []) (sink_of [] queued)).rows
    ≡ insert_all (row_at "a" 0 ∷ row_at "c" 2 ∷ []) []
unfolding row_of
write_loop_drained_example =
    write_loop_drained tiny refuses_b (1 ∷ 2 ∷ []) (sink_of [] queued)
      (("{}", refl), (("{}", refl), (("{}", refl), tt))) (emptied refuses_b)

abbrev written : Persistence ℕ ℕ
written = write_loop tiny (λ r. true) (1 ∷ 2 ∷ []) (sink_of [] queued)

three_rows : written.rows ≡ row_at "a" 0 ∷ row_at "b" 1 ∷ row_at "c" 2 ∷ []
unfolding write_loop flush_batch rows_of row_of write_rows insert_all insert_or_ignore
three_rows = refl

load_stream-write_loop_example : load_stream tiny "main" 0 written ≡ (some queued, written)
load_stream-write_loop_example =
    load_stream-write_loop tiny "main" queued (1 ∷ 2 ∷ []) (sink_of [] queued) tiny-RoundTrips
      (([], "{}", refl, refl), (([], "{}", refl, refl), (([], "{}", refl, refl), tt)))
      (refl, refl, (refl, refl, (refl, refl, tt)))
      (
        (string_ne "a" "b" refl, (string_ne "a" "c" refl, tt)),
        ((string_ne "b" "c" refl, tt), (tt, tt)),
      )
      refl refl (emptied (λ r. true))
