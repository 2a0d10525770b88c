-- ===== src/EventStream/Restore.antt =====
-- `StreamManager.restore_from_disk`: into a manager without streams it raises only where a text of a row
-- is refused.
use offline_companion_core.Base.{
  String, ◌≡◌, refl, sym, ap, subst, ◌∙◌, ◌≢◌, inl, inr, false, Option, none, some, List, [], ◌∷◌,
  ◌++◌, arith, Bool-cases, nat_eq, string_eq, pair_eq, contains, ok, err, Result, ◌⊎◌,
}
use offline_companion_core.Base.Dict.{Dict, keys, lookup, insert, lookup-insert_ne}
use offline_companion_core.EventStream.Types.{DomainEvent}
use offline_companion_core.EventStream.Store.{
  Row, Persistence, Codec, load_stream, stream_ids, load_each, load_all_streams,
}
use offline_companion_core.EventStream.Stream.{
  EventStream, StreamError, unreadable, new, restore_events,
}
use offline_companion_core.EventStream.Manager.{
  StreamManager, restore_all, restore_from, restore_from_disk,
}
use offline_companion_core.EventStream.Numbering.{Numbered, Numbered-misnumbered}
use offline_companion_core.EventStream.Replay.{Loaded, load_stream-Loaded}

abbrev NotIn : String → List String → Type 0
NotIn id [] = Unit {0}
NotIn id (j ∷ js) = (id ≢ j) × NotIn id js

abbrev DistinctIds : List String → Type 0
DistinctIds [] = Unit {0}
DistinctIds (j ∷ js) = NotIn j js × DistinctIds js

NotIn-append : (id j : String) (js : List String) → NotIn id js → id ≢ j → NotIn id (js ++ j ∷ [])
NotIn-append id j [] h ne = (ne, tt)
NotIn-append id j (k ∷ js) h ne = (h.0, NotIn-append id j js h.1 ne)

DistinctIds-append :
    (j : String) (js : List String)
    → contains js j ≡ false
    → DistinctIds js
    → DistinctIds (js ++ j ∷ [])
DistinctIds-append j [] h d = (tt, tt)
DistinctIds-append j (k ∷ js) h d = (
  NotIn-append k j js d.0 (ground (arith, string_eq.beq_iff k j)),
  DistinctIds-append j js (ground arith) d.1,
)

module _ {V T : Type 0} (json : Codec V) where
  stream_ids-DistinctIds :
      (rows : List (Row T)) (seen : List String)
      → DistinctIds seen
      → DistinctIds (stream_ids rows seen)
  unfolding stream_ids
  stream_ids-DistinctIds [] seen d = d
  stream_ids-DistinctIds (r ∷ rs) seen d = elim (Bool-cases (contains seen r.stream_id)) [
    | inl q ↦ rw q (stream_ids-DistinctIds rs seen d)
    | inr q ↦ rw q (
        stream_ids-DistinctIds rs (seen ++ r.stream_id ∷ [])
          (DistinctIds-append r.stream_id seen q d))
  ]

  -- What `restore_all` needs: numbered events, and no stream of that name yet.
  abbrev Restorable :
      {O : Type 0}
      → List (String × List (DomainEvent V T))
      → Dict String (EventStream V T O)
      → Type 0
  Restorable [] d = Unit {0}
  Restorable ((id, es) ∷ rest) d =
      Numbered 0 id es × (lookup id d ≡ none) × NotIn id (keys rest) × Restorable rest d

  Restorable-insert :
      {O : Type 0} (id : String) (s : EventStream V T O)
      (l : List (String × List (DomainEvent V T))) (d : Dict String (EventStream V T O))
      → NotIn id (keys l)
      → Restorable l d
      → Restorable l (insert id s d)
  Restorable-insert id s [] d n h = tt
  Restorable-insert id s ((j, es) ∷ l) d n h =
      (h.0, lookup-insert_ne id j s d n.0 ∙ h.1, h.2, Restorable-insert id s l d n.1 h.3)

  -- What is loaded without raising can be restored.
  abbrev Loads :
      {O : Type 0}
      → List String
      → Dict String (EventStream V T O)
      → Option (List (String × List (DomainEvent V T))) × Persistence V T
      → Type 0
  Loads ids d (none, p) = Unit {0}
  Loads ids d (some l, p) = (keys l ≡ ids) × Restorable l d

  load_each-Loads :
      {O : Type 0} (ids : List String) (p : Persistence V T) (d : Dict String (EventStream V T O))
      → DistinctIds ids
      → ((id : String) → lookup id d ≡ none)
      → Loads ids d (load_each json ids p)
  unfolding load_each
  load_each-Loads [] p d n h = (refl, tt)
  load_each-Loads {O = O} (id ∷ ids) p d n h =
      one (load_stream json id 0 p) (load_stream-Loaded json id 0 p)
        (load_each-Loads ids (load_stream json id 0 p).1 d n.1 h)
    where
      two :
          (es : List (DomainEvent V T)) (q : Persistence V T)
          → Numbered 0 id es
          → (o : Option (List (String × List (DomainEvent V T)))) → Loads ids d (o, q)
          → Loads (id ∷ ids) d (elim o [ none ↦ none | some l ↦ some ((id, es) ∷ l) ], q)
      two es q num none g = tt
      two es q num (some l) (same, g) =
          (ap (◌∷◌ id) same, (num, h id, subst (NotIn id) (sym same) n.0, g))

      one :
          (x : Option (List (DomainEvent V T)) × Persistence V T)
          → Loaded json 0 id x
          → Loads ids d (load_each json ids x.1)
          → Loads (id ∷ ids) d (elim x.0 [
            | none ↦ (none, x.1)
            | some es ↦ (
              elim (load_each json ids x.1).0 [ none ↦ none | some l ↦ some ((id, es) ∷ l) ],
              (load_each json ids x.1).1,
            )
          ])
      one (none, q) num g = tt
      one (some es, q) num g = two es (load_each json ids q).1 num (load_each json ids q).0 g

  -- The manager after one entry: the stream is created, and then replaced by the restored one.
  abbrev restored :
      {O : Type 0} → String → List (DomainEvent V T) → StreamManager V T O → StreamManager V T O
  restored id es m = record m {
    streams =
        insert id (record (new id m.registry) { events = es })
          (insert id (new id m.registry) m.streams);
  }

  restore_all-cons :
      {O : Type 0} (id : String) (es : List (DomainEvent V T))
      (l : List (String × List (DomainEvent V T))) (m : StreamManager V T O)
      → Numbered 0 id es
      → lookup id m.streams ≡ none
      → restore_all ((id, es) ∷ l) m ≡ restore_all l (restored id es m)
  unfolding restore_all restore_events new
  restore_all-cons id es l m h q = ground (arith, Numbered-misnumbered 0 id es h)

  restore_all-ok :
      {O : Type 0} (l : List (String × List (DomainEvent V T))) (m : StreamManager V T O)
      → Restorable l m.streams
      → (restore_all l m).0 ≡ ok tt
  unfolding restore_all
  restore_all-ok [] m h = refl
  restore_all-ok ((id, es) ∷ l) m h =
      let s = new id m.registry in
      rw (restore_all-cons id es l m h.0 h.1) (
        restore_all-ok l (restored id es m) (
          Restorable-insert id (record s { events = es }) l (insert id s m.streams) h.2
            (Restorable-insert id s l m.streams h.2 h.3)))

  -- The restoring ends well, or a row could not be read.
  abbrev Restores : {O : Type 0} → Result StreamError (Unit {0}) × StreamManager V T O → Type 0
  Restores (r, m) = (r ≡ ok tt) ⊎ (r ≡ err unreadable)

  restore_from-Restores :
      {O : Type 0} (o : Option (Persistence V T)) (m : StreamManager V T O)
      → m.streams ≡ []
      → Restores (restore_from json o m)
  unfolding restore_from load_all_streams
  restore_from-Restores none m h = inl refl
  restore_from-Restores {O = O} (some p) m h = loaded (load_all_streams json p) (
      load_each-Loads (stream_ids p.rows []) p m.streams (stream_ids-DistinctIds p.rows [] tt)
        (λ id. rw h refl))
    where
      loaded :
          (x : Option (List (String × List (DomainEvent V T))) × Persistence V T)
          → Loads (stream_ids p.rows []) m.streams x
          → Restores {O = O} (elim x.0 [
            | none ↦ (err unreadable, record m { persistence = some x.1 })
            | some l ↦ restore_all l (record m { persistence = some x.1 })
          ])
      loaded (none, q) g = inr refl
      loaded (some l, q) g = inl (restore_all-ok l (record m { persistence = some q }) g.1)

  -- A manager without streams restores everything that is on disk, whatever gaps the table has; it
  -- raises only where the text of a row is refused.
  pub restore_from_disk-Restores :
      {O : Type 0} (m : StreamManager V T O) → m.streams ≡ [] → Restores (restore_from_disk json m)
  unfolding restore_from_disk
  restore_from_disk-Restores m h = restore_from-Restores m.persistence m h
