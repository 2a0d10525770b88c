-- ===== src/EventStream/Manager.antt =====
-- The streams by name, core/event_stream/manager.py.
use offline_companion_core.Base.{
  String, Option, none, some, List, [], ◌∷◌, nat_eq, string_eq, pair_eq, Result, ok, err,
}
use offline_companion_core.Base.Dict.{Dict, lookup, insert}
use offline_companion_core.EventStream.Types.{DomainEvent}
use offline_companion_core.EventStream.Registry.{Registry}
use offline_companion_core.EventStream.Store.{Codec, Persistence, load_all_streams}
use offline_companion_core.EventStream.Stream.{
  EventStream, StreamError, unreadable, new, restore_events,
}

pub record StreamManager (V T O : Type 0) : Type 0 where
  pub registry : Registry
  pub persistence : Option (Persistence V T)
  pub streams : Dict String (EventStream V T O)

module _ {V T O : Type 0} where
  unfoldable pub get_or_create :
      String → StreamManager V T O → EventStream V T O × StreamManager V T O
  get_or_create stream_id m = elim (lookup stream_id m.streams) [
    | some s ↦ (s, m)
    | none ↦
        let s = new stream_id m.registry in (s, record m { streams = insert stream_id s m.streams })
  ]

  unfoldable pub get : String → StreamManager V T O → Option (EventStream V T O)
  get stream_id m = lookup stream_id m.streams

  -- The loop over the persisted streams. An exception keeps what was restored before it.
  unfoldable pub restore_all :
      List (String × List (DomainEvent V T))
      → StreamManager V T O
      → Result StreamError (Unit {0}) × StreamManager V T O
  unfolding get_or_create
  restore_all [] m = (ok tt, m)
  restore_all ((stream_id, es) ∷ rest) m =
      let (s, m') = get_or_create stream_id m in
      elim (restore_events es s) [
        | err e ↦ (err e, m')
        | ok s' ↦ restore_all rest (record m' { streams = insert stream_id s' m'.streams })
      ]

  unfoldable pub restore_from :
      Codec V
      → Option (Persistence V T)
      → StreamManager V T O
      → Result StreamError (Unit {0}) × StreamManager V T O
  unfolding restore_all
  restore_from json none m = (ok tt, m)
  restore_from json (some p) m =
      let (persisted, p') = load_all_streams json p in
      let m' = record m { persistence = some p' } in
      elim persisted [ none ↦ (err unreadable, m') | some l ↦ restore_all l m' ]

  unfoldable pub restore_from_disk :
      Codec V → StreamManager V T O → Result StreamError (Unit {0}) × StreamManager V T O
  unfolding restore_from
  restore_from_disk json m = restore_from json m.persistence m
