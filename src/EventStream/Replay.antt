-- ===== src/EventStream/Replay.antt =====
-- What is read back from the table: a contiguous prefix, and after a complete write the very events
-- that were appended.
use offline_companion_core.Base.{
  ℕ, suc, ◌≤◌, ◌<◌, String, ◌≡◌, refl, sym, ap, subst, ◌∙◌, ◌≢◌, Bool, true, false, Option, none,
  some, List, [], ◌∷◌, ◌++◌, arith, select, any, split_if, nat_eq, string_eq, pair_eq, ◌==◌,
}
use offline_companion_core.Base.Dict.{Dict}
use mathlib.Core.List.{append-nil, append_assoc}
use offline_companion_core.EventStream.Types.{Payload, dict, other, DomainEvent}
use offline_companion_core.EventStream.Store.{
  Row, Persistence, Codec, conflicts, insert_or_ignore, insert_all, belongs, insert_by_seq,
  order_by_seq, row_with, event_of, scan, truncate, load_stream, write_loop,
}
use offline_companion_core.EventStream.Numbering.{Numbered}
use offline_companion_core.EventStream.Batches.{Textual, texts, texts-cons, write_loop_drained}

module _ {T : Type 0} where
  abbrev Named : String → List (Row T) → Type 0
  Named id [] = Unit {0}
  Named id (e ∷ es) = (e.stream_id ≡ id) × Named id es

  select-Named : (id : String) (n : ℕ) (rows : List (Row T)) → Named id (select (belongs id n) rows)
  select-Named id n [] = tt
  select-Named id n (r ∷ rs) =
      ground (arith, select-Named id n rs, string_eq.beq_iff r.stream_id id)

  insert_by_seq-Named :
      (id : String) (e : Row T) (rs : List (Row T))
      → e.stream_id ≡ id
      → Named id rs
      → Named id (insert_by_seq e rs)
  unfolding insert_by_seq
  insert_by_seq-Named id e [] p h = (p, tt)
  insert_by_seq-Named id e (r ∷ rs) p h = ground (arith, insert_by_seq-Named id e rs p h.1)

  order_by_seq-Named : (id : String) (rs : List (Row T)) → Named id rs → Named id (order_by_seq rs)
  unfolding order_by_seq
  order_by_seq-Named id [] h = tt
  order_by_seq-Named id (r ∷ rs) h =
      insert_by_seq-Named id r (order_by_seq rs) h.0 (order_by_seq-Named id rs h.1)

  -- Rows of one stream with the numbers from `n` on.
  abbrev InOrder : ℕ → String → List (Row T) → Type 0
  InOrder n id [] = Unit {0}
  InOrder n id (r ∷ rs) = (r.seq ≡ n) × (r.stream_id ≡ id) × InOrder (suc n) id rs

  -- No two rows have the same identifier.
  abbrev Other : Row T → List (Row T) → Type 0
  Other e [] = Unit {0}
  Other e (d ∷ ds) = (e.event_id ≢ d.event_id) × Other e ds

  abbrev ApartIds : List (Row T) → Type 0
  ApartIds [] = Unit {0}
  ApartIds (e ∷ es) = Other e es × ApartIds es

  -- No row of the table gets in the way of the events.
  abbrev Apart : List (Row T) → List (Row T) → Type 0
  Apart [] rows = Unit {0}
  Apart (e ∷ es) rows = (any (conflicts e) rows ≡ false) × Apart es rows

  any-append :
      (p : Row T → Bool) (xs ys : List (Row T))
      → any p xs ≡ false
      → any p ys ≡ false
      → any p (xs ++ ys) ≡ false
  any-append p [] ys h k = k
  any-append p (x ∷ xs) ys h k = ground (arith, any-append p xs ys)

  Apart-extend :
      (n : ℕ) (id : String) (e : Row T) (es rows : List (Row T))
      → e.seq < n
      → InOrder n id es
      → Other e es
      → Apart es rows
      → Apart es (rows ++ e ∷ [])
  Apart-extend n id e [] rows h num f a = tt
  Apart-extend n id e (d ∷ es) rows h num f a = (
    any-append (conflicts d) rows (e ∷ []) a.0
        (ground (arith, string_eq.beq_iff e.event_id d.event_id)),
    Apart-extend (suc n) id e es rows (omega arith) num.2 f.1 a.1,
  )

  insert_all-Apart :
      (n : ℕ) (id : String) (es rows : List (Row T))
      → InOrder n id es
      → ApartIds es
      → Apart es rows
      → insert_all es rows ≡ rows ++ es
  unfolding insert_all insert_or_ignore
  insert_all-Apart n id [] rows num d a = sym (append-nil rows)
  insert_all-Apart n id (e ∷ es) rows num d a = rw (a.0) (
      insert_all-Apart (suc n) id es (rows ++ e ∷ []) num.2 d.1
        (Apart-extend (suc n) id e es rows (omega arith) num.2 d.0 a.1)
      ∙ append_assoc rows (e ∷ []) es)

  Apart-nil : (es : List (Row T)) → Apart es []
  Apart-nil [] = tt
  Apart-nil (e ∷ es) = (refl, Apart-nil es)

  select-InOrder :
      (m n : ℕ) (id : String) (es : List (Row T))
      → m ≤ n
      → InOrder n id es
      → select (belongs id m) es ≡ es
  select-InOrder m n id [] h num = refl
  select-InOrder m n id (e ∷ es) h num =
      ground (arith, string_eq.beq_iff e.stream_id id, select-InOrder m (suc n) id es)

  order_by_seq-InOrder :
      (n : ℕ) (id : String) (es : List (Row T)) → InOrder n id es → order_by_seq es ≡ es
  unfolding order_by_seq
  order_by_seq-InOrder n id [] num = refl
  order_by_seq-InOrder n id (e ∷ []) num = refl
  order_by_seq-InOrder n id (e ∷ d ∷ es) num =
      rw (order_by_seq-InOrder (suc n) id (d ∷ es) num.2) (ground arith)

-- `json.loads` reads the text of a dict back as that dict.
abbrev pub RoundTrips : {V : Type 0} → Codec V → Type 0
RoundTrips {V = V} json =
    (d : Dict String V) (t : String) → json.dumps (dict d) ≡ some t → json.loads t ≡ some (dict d)

module _ {V T : Type 0} (json : Codec V) where
  abbrev Kept : Row T → Option (DomainEvent V T) → Type 0
  Kept r none = Unit {0}
  Kept r (some e) = (e.seq ≡ r.seq) × (e.stream_id ≡ r.stream_id)

  event_of-Kept : (r : Row T) → Kept r (event_of json r)
  unfolding event_of
  event_of-Kept r = by_text (json.loads r.payload)
    where
      by_dict :
          (d : Dict String V) (o : Option String)
          → Kept r (elim o [
            | none ↦ none
            | some t ↦ some (record {
              event_id = r.event_id;
              stream_id = r.stream_id;
              seq = r.seq;
              event_type = r.event_type;
              timestamp = r.timestamp;
              schema_version = r.schema_version;
              payload = dict d;
            })
          ])
      by_dict d none = tt
      by_dict d (some t) = (refl, refl)

      by_text :
          (o : Option (Payload V))
          → Kept r (elim o [
            | none ↦ none
            | some (other v) ↦ none
            | some (dict d) ↦ elim (json.dumps (dict d)) [
              | none ↦ none
              | some t ↦ some (record {
                event_id = r.event_id;
                stream_id = r.stream_id;
                seq = r.seq;
                event_type = r.event_type;
                timestamp = r.timestamp;
                schema_version = r.schema_version;
                payload = dict d;
              })
            ]
          ])
      by_text none = tt
      by_text (some (other v)) = tt
      by_text (some (dict d)) = by_dict d (json.dumps (dict d))

  -- What was read belongs to the stream and is numbered from `n` on.
  abbrev Read : ℕ → String → Option (List (DomainEvent V T) × Option ℕ) → Type 0
  Read n id none = Unit {0}
  Read n id (some (es, gap)) = Numbered n id es

  scan-Read : (n : ℕ) (id : String) (rs : List (Row T)) → Named id rs → Read n id (scan json n rs)
  unfolding scan
  scan-Read n id [] h = tt
  scan-Read n id (r ∷ rs) h =
      split_if (Read n id) (r.seq == n)
        (λ q.
          taken ((nat_eq.beq_iff r.seq n).0 q) (event_of json r) (event_of-Kept r)
            (scan json (suc n) rs) (scan-Read (suc n) id rs h.1))
        (λ _. tt)
    where
      taken :
          r.seq ≡ n
          → (o : Option (DomainEvent V T)) → Kept r o
          → (rest : Option (List (DomainEvent V T) × Option ℕ)) → Read (suc n) id rest
          → Read n id (elim o [
            | none ↦ none
            | some e ↦ elim rest [ none ↦ none | some (es, gap) ↦ some (e ∷ es, gap) ]
          ])
      taken p none k rest g = tt
      taken p (some e) k none g = tt
      taken p (some e) k (some (es, gap)) g = (k.0 ∙ p, k.1 ∙ h.0, g)

  abbrev pub Loaded : ℕ → String → Option (List (DomainEvent V T)) × Persistence V T → Type 0
  Loaded n id (none, p) = Unit {0}
  Loaded n id (some es, p) = Numbered n id es

  -- Whatever the table holds, gaps included: what is loaded without raising belongs to the stream
  -- and is numbered without a gap from `from_seq` on.
  pub load_stream-Loaded :
      (id : String) (from_seq : ℕ) (p : Persistence V T)
      → Loaded from_seq id (load_stream json id from_seq p)
  unfolding load_stream
  load_stream-Loaded id from_seq p =
      by_scan (scan json from_seq (order_by_seq (select (belongs id from_seq) p.rows))) (
        scan-Read from_seq id (order_by_seq (select (belongs id from_seq) p.rows)) (
          order_by_seq-Named id (select (belongs id from_seq) p.rows)
            (select-Named id from_seq p.rows)))
    where
      by_scan :
          (o : Option (List (DomainEvent V T) × Option ℕ))
          → Read from_seq id o
          → Loaded from_seq id
              (elim o [ none ↦ (none, p) | some (es, gap) ↦ (some es, truncate id gap p) ])
      by_scan none h = tt
      by_scan (some (es, gap)) h = h

  -- The payload is a dict with a text, as `DomainEvent` checks when it is made.
  abbrev pub Storable : List (DomainEvent V T) → Type 0
  Storable [] = Unit {0}
  Storable (e ∷ es) =
      ((d : Dict String V) × (t : String) × (e.payload ≡ dict d) × (json.dumps (dict d) ≡ some t))
      × Storable es

  Storable-Textual : (es : List (DomainEvent V T)) → Storable es → Textual json es
  Storable-Textual [] h = tt
  Storable-Textual (e ∷ es) ((d, t, p, q), h) = ((t, ap json.dumps p ∙ q), Storable-Textual es h)

  -- No two events have the same identifier.
  abbrev pub Fresh : DomainEvent V T → List (DomainEvent V T) → Type 0
  Fresh e [] = Unit {0}
  Fresh e (d ∷ ds) = (e.event_id ≢ d.event_id) × Fresh e ds

  abbrev pub Distinct : List (DomainEvent V T) → Type 0
  Distinct [] = Unit {0}
  Distinct (e ∷ es) = Fresh e es × Distinct es

  texts-InOrder :
      (n : ℕ) (id : String) (es : List (DomainEvent V T))
      → Storable es
      → Numbered n id es
      → InOrder n id (texts json es)
  texts-InOrder n id [] h num = tt
  texts-InOrder n id (e ∷ es) ((d, t, p, q), h) num =
      subst (InOrder n id) (sym (texts-cons json e es t (ap json.dumps p ∙ q)))
        (num.0, num.1, texts-InOrder (suc n) id es h num.2)

  texts-Other :
      (e : DomainEvent V T) (t : String) (es : List (DomainEvent V T))
      → Storable es
      → Fresh e es
      → Other (row_with e t) (texts json es)
  texts-Other e t [] h f = tt
  texts-Other e t (c ∷ es) ((d, u, p, q), h) f =
      subst (Other (row_with e t)) (sym (texts-cons json c es u (ap json.dumps p ∙ q)))
        (f.0, texts-Other e t es h f.1)

  texts-ApartIds :
      (es : List (DomainEvent V T)) → Storable es → Distinct es → ApartIds (texts json es)
  texts-ApartIds [] h f = tt
  texts-ApartIds (e ∷ es) ((d, t, p, q), h) f =
      subst ApartIds (sym (texts-cons json e es t (ap json.dumps p ∙ q)))
        (texts-Other e t es h f.0, texts-ApartIds es h f.1)

  event_of-row_with :
      (e : DomainEvent V T) (d : Dict String V) (t : String)
      → e.payload ≡ dict d
      → json.dumps (dict d) ≡ some t
      → json.loads t ≡ some (dict d)
      → event_of json (row_with e t) ≡ some e
  unfolding event_of
  event_of-row_with e d t p q l =
      rw (event_of, l) (rw (event_of, q) (ap (λ x. some (record e { payload = x })) (sym p)))

  scan-texts :
      (n : ℕ) (id : String) (es : List (DomainEvent V T))
      → RoundTrips json
      → Storable es
      → Numbered n id es
      → scan json n (texts json es) ≡ some (es, none)
  unfolding scan
  scan-texts n id [] trips h num = refl
  scan-texts n id (e ∷ es) trips ((d, t, p, q), h) num =
      ap (scan json n) (texts-cons json e es t (ap json.dumps p ∙ q))
      ∙ rw (event_of-row_with e d t p q (trips d t q), scan-texts (suc n) id es trips h num.2, scan)
          (ground (arith, num.0))

  -- The round trip: a stream's events, numbered from 0, with distinct identifiers, and with dicts for
  -- payloads that `json.dumps` makes texts of and `json.loads` reads back, are written in any batches into
  -- an empty table that accepts every row; once the queue is empty they are loaded back as they
  -- were, and nothing is truncated.
  pub load_stream-write_loop :
      (id : String) (es : List (DomainEvent V T)) (ns : List ℕ) (p : Persistence V T)
      → RoundTrips json
      → Storable es
      → Numbered 0 id es
      → Distinct es
      → p.rows ≡ []
      → p.write_queue ≡ es
      → let p' = write_loop json (λ e. true) ns p in
        p'.write_queue ≡ [] → load_stream json id 0 p' ≡ (some es, p')
  unfolding load_stream
  load_stream-write_loop id es ns p trips h num d empty queued drained =
      ap (λ (o : Option (List (DomainEvent V T) × Option ℕ)). the_end o)
        (ap (λ rows. scan json 0 (order_by_seq (select (belongs id 0) rows))) written
          ∙ ap (λ rows. scan json 0 (order_by_seq rows))
              (select-InOrder 0 0 id (texts json es) (omega arith) ordered)
          ∙ ap (scan json 0) (order_by_seq-InOrder 0 id (texts json es) ordered)
          ∙ scan-texts 0 id es trips h num)
    where
      p' : Persistence V T
      p' = write_loop json (λ e. true) ns p

      the_end :
          Option (List (DomainEvent V T) × Option ℕ)
          → Option (List (DomainEvent V T)) × Persistence V T
      the_end none = (none, p')
      the_end (some (found, gap)) = (some found, truncate id gap p')

      ordered : InOrder 0 id (texts json es)
      ordered = texts-InOrder 0 id es h num

      all_writable : (ds : List (Row T)) → select (λ e. true) ds ≡ ds
      all_writable [] = refl
      all_writable (e ∷ ds) = ap (◌∷◌ e) (all_writable ds)

      written : (write_loop json (λ e. true) ns p).rows ≡ texts json es
      written =
          write_loop_drained json (λ e. true) ns p
            (subst (Textual json) (sym queued) (Storable-Textual es h)) drained
          ∙ all_written
          ∙ insert_all-Apart 0 id (texts json es) [] (texts-InOrder 0 id es h num)
              (texts-ApartIds es h d) (Apart-nil (texts json es))
        where
          all_written :
              insert_all (select (λ e. true) (texts json p.write_queue)) p.rows
              ≡ insert_all (texts json es) []
          all_written =
              ap (λ x. insert_all x p.rows)
                (all_writable (texts json p.write_queue) ∙ ap (texts json) queued)
              ∙ ap (insert_all (texts json es)) empty
