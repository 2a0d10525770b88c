-- ===== src/EventStream/History.antt =====
-- Every stream that the operations reach from a new one is numbered from 0 without a gap.
use offline_companion_core.Base.{
  ℕ, zero, suc, ◌-◌, ◌<◌, String, ◌≡◌, refl, subst, ◌∙◌, inl, inr, Bool, Option, some, List, [],
  ◌∷◌, arith, leb, Bool-cases, length, get_elem?, drop, Eq, nat_eq, string_eq, pair_eq, ok,
  Result-cases,
}
use offline_companion_core.Base.Dict.{Dict}
use offline_companion_core.EventStream.Types.{DomainEvent}
use offline_companion_core.EventStream.Registry.{Registry}
use offline_companion_core.EventStream.Store.{Persistence}
use offline_companion_core.EventStream.Stream.{
  EventStream, Json, new, append, restore_events, enter_trace, exit_trace, subscribe, unsubscribe,
  get_events, get_event,
}
use offline_companion_core.EventStream.Numbering.{
  Numbered, Numbered-append, Numbered-get_elem?, Numbered-drop, misnumbered-Numbered,
}
use offline_companion_core.EventStream.Append.{append_commits, append_refused}

module _ {V T O : Type 0} ⦃eq : Eq O⦄ where
  -- The calls that change a stream.
  pub data Step (s : EventStream V T O) : EventStream V T O → Type 0 where
    appends :
        (json : Json V) (raises : O → DomainEvent V T → Bool) (id : String) (now : T)
        (event_type : String) (p : Dict String V) (sink : Option (Persistence V T))
        → Step s (append json raises id now event_type p s sink).stream
    restores :
        (es : List (DomainEvent V T)) (t : EventStream V T O)
        → restore_events es s ≡ ok t
        → Step s t
    enters :
        (trace_id : String) (t : EventStream V T O) (token : Option String)
        → enter_trace trace_id s ≡ ok (t, token)
        → Step s t
    exits : (token : Option String) → Step s (exit_trace token s)
    subscribes : (o : O) → Step s (subscribe o s)
    unsubscribes : (o : O) → Step s (unsubscribe o s)
    notifies : (active : Bool) → Step s (record s { notifying = active })

  pub data Reach (s : EventStream V T O) : EventStream V T O → Type 0 where
    here : Reach s s
    next : {t u : EventStream V T O} → Reach s t → Step t u → Reach s u

  abbrev pub IsNumbered : EventStream V T O → Type 0
  IsNumbered s = Numbered 0 s.stream_id s.events

  Step-IsNumbered : {s t : EventStream V T O} → Step s t → IsNumbered s → IsNumbered t
  unfolding restore_events enter_trace exit_trace subscribe unsubscribe
  Step-IsNumbered {s} (appends json raises id now event_type p sink) h =
      elim (Result-cases (append json raises id now event_type p s sink).result) [
        | inl (e, q) ↦
            let c = append_commits json raises id now event_type p s sink e q in
            rw (c.0)
              (Numbered-append 0 s.stream_id s.events e h (c.1.numbered ∙ omega arith) c.1.named)
        | inr (x, q) ↦ rw ((append_refused json raises id now event_type p s sink x q).0) h
      ]
  Step-IsNumbered {s} (restores es t q) h = ground (arith, misnumbered-Numbered 0 s.stream_id es)
  Step-IsNumbered (enters trace_id t token q) h = ground arith
  Step-IsNumbered (exits token) h = h
  Step-IsNumbered (subscribes o) h = h
  Step-IsNumbered (unsubscribes o) h = ground arith
  Step-IsNumbered (notifies active) h = h

  -- Whatever calls have been made on a stream since it was created, its events carry its name and
  -- the numbers 0, 1, 2, … in order.
  pub Reach-IsNumbered :
      (id : String) (r : Registry) {t : EventStream V T O} → Reach (new id r) t → IsNumbered t
  unfolding new
  Reach-IsNumbered id r here = tt
  Reach-IsNumbered id r (next p st) = Step-IsNumbered st (Reach-IsNumbered id r p)

  -- In such a stream `get_event` finds, for a number below the length, the event of exactly that
  -- number.
  pub get_event-IsNumbered :
      (s : EventStream V T O) (n : ℕ)
      → IsNumbered s
      → n < length s.events
      → (e : DomainEvent V T) × (get_event n s ≡ some e) × (e.seq ≡ n)
  unfolding get_event
  get_event-IsNumbered s n h p =
      let (e, q) = in_range s.events n p in
      (e, ground arith, ground (arith, Numbered-get_elem? 0 s.stream_id s.events n e h q))
    where
      in_range :
          (es : List (DomainEvent V T)) (i : ℕ)
          → i < length es
          → (e : DomainEvent V T) × (get_elem? es i ≡ some e)
      in_range [] i p = elim p [ ]
      in_range (e ∷ es) zero p = (e, refl)
      in_range (e ∷ es) (suc i) p = in_range es i (omega arith)

  -- `get_events` gives the events numbered from `from_seq` on, without a gap; from the length on
  -- there are none.
  pub get_events-IsNumbered :
      (s : EventStream V T O) (from_seq : ℕ)
      → IsNumbered s
      → Numbered from_seq s.stream_id (get_events from_seq s)
        × (length (get_events from_seq s) ≡ length s.events - from_seq)
  unfolding get_events
  get_events-IsNumbered s n h = (numbered, counted)
    where
      length-drop : (es : List (DomainEvent V T)) (k : ℕ) → length (drop k es) ≡ length es - k
      length-drop es zero = omega arith
      length-drop [] (suc k) = omega arith
      length-drop (e ∷ es) (suc k) = omega (arith, length-drop es k)

      numbered : Numbered n s.stream_id (get_events n s)
      numbered = elim (Bool-cases (leb (length s.events) n)) [
        | inl q ↦ rw q tt
        | inr q ↦ rw q (
            subst (λ m. Numbered m s.stream_id (drop n s.events)) (omega arith)
              (Numbered-drop 0 s.stream_id s.events n h))
      ]

      counted : length (get_events n s) ≡ length s.events - n
      counted = ground (arith, length-drop s.events n)
