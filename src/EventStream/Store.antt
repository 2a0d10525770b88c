-- ===== src/EventStream/Store.antt =====
-- The write-behind store of events, core/event_stream/persistence.py: the table `domain_events`,
-- the queue before it, and the flags of the adapter. `json` is a parameter, whose calls may raise;
-- the numbers of a row are read back as they were written. The writer thread appears as the
-- batches that it takes; whether SQLite accepts a row is the argument `writable`.
use offline_companion_core.Base.{
  ℕ, zero, suc, String, Bool, true, not, ◌&&◌, ◌||◌, Option, none, some, List, [], ◌∷◌, ◌++◌, leb,
  if◌then◌else◌, select, all, any, ◌==◌, nat_eq, string_eq, pair_eq, contains,
}
use offline_companion_core.EventStream.Types.{Payload, dict, other, DomainEvent}

-- A row of the table: an event with the text of its payload.
pub record Row (T : Type 0) : Type 0 where
  pub event_id : String
  pub stream_id : String
  pub seq : ℕ
  pub event_type : String
  pub timestamp : T
  pub schema_version : ℕ
  pub payload : String

pub record Persistence (V T : Type 0) : Type 0 where
  pub rows : List (Row T)
  pub write_queue : List (DomainEvent V T)
  pub closed : Bool
  pub recovery_mode : Bool

-- `json.dumps` of a payload and `json.loads` of a text; `none` is an exception.
pub record Codec (V : Type 0) : Type 0 where
  pub dumps : Payload V → Option String
  pub loads : String → Option (Payload V)

module _ {V T : Type 0} where
  unfoldable pub enqueue : DomainEvent V T → Persistence V T → Persistence V T
  enqueue e p = if p.closed then p else record p { write_queue = p.write_queue ++ e ∷ [] }

  -- The writer takes the first `n` entries of the queue as one batch.
  abbrev pub split_at : ℕ → List (DomainEvent V T) → List (DomainEvent V T) × List (DomainEvent V T)
  split_at zero es = ([], es)
  split_at (suc n) [] = ([], [])
  split_at (suc n) (e ∷ es) = let (front, back) = split_at n es in (e ∷ front, back)

module _ {T : Type 0} where
  -- The primary key `event_id` and the constraint `UNIQUE(stream_id, seq)`.
  abbrev pub conflicts : Row T → Row T → Bool
  conflicts e r = r.event_id == e.event_id || (r.stream_id == e.stream_id && r.seq == e.seq)

  -- `INSERT OR IGNORE`
  unfoldable pub insert_or_ignore : Row T → List (Row T) → List (Row T)
  insert_or_ignore e rows = if any (conflicts e) rows then rows else rows ++ e ∷ []

  unfoldable pub insert_all : List (Row T) → List (Row T) → List (Row T)
  insert_all [] rows = rows
  insert_all (e ∷ es) rows = insert_all es (insert_or_ignore e rows)

  -- The loop after a failed batch: a row that SQLite refuses is rolled back and skipped.
  unfoldable pub retry_each : (Row T → Bool) → List (Row T) → List (Row T) → List (Row T)
  retry_each writable [] rows = rows
  retry_each writable (e ∷ es) rows =
      retry_each writable es (if writable e then insert_or_ignore e rows else rows)

  -- The table after the text of each row has been made: all at once, or one by one.
  unfoldable pub write_rows : (Row T → Bool) → List (Row T) → List (Row T) → List (Row T)
  unfolding insert_all retry_each
  write_rows writable batch rows =
      if all writable batch then insert_all batch rows else retry_each writable batch rows

  -- `ORDER BY seq`
  unfoldable pub insert_by_seq : Row T → List (Row T) → List (Row T)
  insert_by_seq e [] = e ∷ []
  insert_by_seq e (r ∷ rs) =
      let rest = insert_by_seq e rs in if leb e.seq r.seq then e ∷ r ∷ rs else r ∷ rest

  unfoldable pub order_by_seq : List (Row T) → List (Row T)
  unfolding insert_by_seq
  order_by_seq [] = []
  order_by_seq (r ∷ rs) = insert_by_seq r (order_by_seq rs)

  abbrev pub belongs : String → ℕ → Row T → Bool
  belongs stream_id from_seq r = r.stream_id == stream_id && leb from_seq r.seq

  -- `SELECT DISTINCT stream_id … ORDER BY stream_id`; the order of the texts is left open, and
  -- the names come in the order of their first rows.
  unfoldable pub stream_ids : List (Row T) → List String → List String
  stream_ids [] seen = seen
  stream_ids (r ∷ rs) seen =
      stream_ids rs (if contains seen r.stream_id then seen else seen ++ r.stream_id ∷ [])

module _ {V T : Type 0} where
  abbrev pub truncate : String → Option ℕ → Persistence V T → Persistence V T
  truncate stream_id none p = p
  truncate stream_id (some n) p = record p {
    rows = select (λ r. not (belongs stream_id n r)) p.rows;
    recovery_mode = true;
  }

  abbrev pub row_with : DomainEvent V T → String → Row T
  row_with e t = record {
    event_id = e.event_id;
    stream_id = e.stream_id;
    seq = e.seq;
    event_type = e.event_type;
    timestamp = e.timestamp;
    schema_version = e.schema_version;
    payload = t;
  }

module _ {V T : Type 0} (json : Codec V) where
  -- The texts of a batch are made before anything is written.
  unfoldable pub row_of : DomainEvent V T → Option (Row T)
  row_of e = elim (json.dumps e.payload) [ none ↦ none | some t ↦ some (row_with e t) ]

  unfoldable pub rows_of : List (DomainEvent V T) → Option (List (Row T))
  unfolding row_of
  rows_of [] = some []
  rows_of (e ∷ es) = elim (row_of e) [
    | none ↦ none
    | some r ↦ elim (rows_of es) [ none ↦ none | some rs ↦ some (r ∷ rs) ]
  ]

  -- A payload without a text raises, and nothing of its batch is written.
  unfoldable pub flush_batch : (Row T → Bool) → List (DomainEvent V T) → List (Row T) → List (Row T)
  unfolding rows_of write_rows
  flush_batch writable batch rows = elim (rows_of batch) [
    | none ↦ rows
    | some rs ↦ write_rows writable rs rows
  ]

  unfoldable pub write_loop : (Row T → Bool) → List ℕ → Persistence V T → Persistence V T
  write_loop writable [] p = p
  write_loop writable (n ∷ ns) p =
      let (batch, rest) = split_at n p.write_queue in
      write_loop writable ns
        (record p { rows = flush_batch writable batch p.rows; write_queue = rest })

  -- `shutdown` waits until the queue is empty: `ns` are the batches that the writer still takes.
  unfoldable pub shutdown : (Row T → Bool) → List ℕ → Persistence V T → Persistence V T
  unfolding write_loop
  shutdown writable ns p =
      if p.closed then p else write_loop writable ns (record p { closed = true })

  -- The event of a row, with the checks of `DomainEvent`: a payload that is no dict is refused.
  unfoldable pub event_of : Row T → Option (DomainEvent V T)
  event_of r = elim (json.loads r.payload) [
    | none ↦ none
    | some (other v) ↦ none
    | some (dict d) ↦ elim (json.dumps (dict d)) [
      | none ↦ none
      | some t ↦ some (record {
        event_id = r.event_id;
        stream_id = r.stream_id;
        seq = r.seq;
        event_type = r.event_type;
        timestamp = r.timestamp;
        schema_version = r.schema_version;
        payload = dict d;
      })
    ]
  ]

  -- The loop over the rows: the contiguous prefix, and the number at which a gap opens; `none` is
  -- an exception.
  unfoldable pub scan : ℕ → List (Row T) → Option (List (DomainEvent V T) × Option ℕ)
  unfolding event_of
  scan expected_seq [] = some ([], none)
  scan expected_seq (r ∷ rs) =
      let rest = scan (suc expected_seq) rs in
      if r.seq == expected_seq
      then elim (event_of r) [
        | none ↦ none
        | some e ↦ elim rest [ none ↦ none | some (es, gap) ↦ some (e ∷ es, gap) ]
      ]
      else some ([], some expected_seq)

  unfoldable pub load_stream :
      String → ℕ → Persistence V T → Option (List (DomainEvent V T)) × Persistence V T
  unfolding scan order_by_seq
  load_stream stream_id from_seq p =
      elim (scan from_seq (order_by_seq (select (belongs stream_id from_seq) p.rows))) [
        | none ↦ (none, p)
        | some (es, gap) ↦ (some es, truncate stream_id gap p)
      ]

  unfoldable pub load_each :
      List String
      → Persistence V T
      → Option (List (String × List (DomainEvent V T))) × Persistence V T
  unfolding load_stream
  load_each [] p = (some [], p)
  load_each (s ∷ ss) p =
      let (found, p') = load_stream s 0 p in
      let (rest, p'') = load_each ss p' in
      elim found [
        | none ↦ (none, p')
        | some es ↦ (elim rest [ none ↦ none | some l ↦ some ((s, es) ∷ l) ], p'')
      ]

  unfoldable pub load_all_streams :
      Persistence V T → Option (List (String × List (DomainEvent V T))) × Persistence V T
  unfolding load_each stream_ids
  load_all_streams p = load_each (stream_ids p.rows []) p
