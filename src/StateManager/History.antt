-- ===== src/StateManager/History.antt =====
-- From the opening of the tables on, every reachable manager is coherent.
use offline_companion_core.Base.{
  ℕ, String, ◌≡◌, refl, sym, ap, subst, ◌∙◌, inl, inr, Option, none, some, List, [], ◌∷◌, arith,
  Bool-cases, Eq, ◌==◌, nat_eq, string_eq, pair_eq, Result-cases,
}
use offline_companion_core.Base.Dict.{
  Unique, Dict, lookup, insert, lookup-insert, lookup-insert_self,
}
use offline_companion_core.StateManager.Types.{
  Key, StateRecord, Row, AuditRecord, Manager, Platform,
}
use offline_companion_core.StateManager.Notify.{subscribe, unsubscribe, clear_event_errors}
use offline_companion_core.StateManager.Store.{
  record_of, warm_cache, open_manager, get_record, get, set, check_version, set_if_version, delete,
}
use offline_companion_core.StateManager.Publish.{
  publish_event, publish, event_payload, event_key, EventInput, EventPayload,
}
use offline_companion_core.StateManager.Coherence.{
  key_eq, IsCoherent, set-IsCoherent, delete-IsCoherent, get_record-unchanged, get-unchanged,
}

module _ {V T C : Type 0} (env : Platform V T C) where
  abbrev read : Key → Option (Row T) → Option (StateRecord V T) → Option (StateRecord V T)
  read k none cached = cached
  read k (some row) cached = some (record_of env k row)

  pub lookup-warm_cache :
      (j : Key) (rows : Dict Key (Row T)) (cache : Dict Key (StateRecord V T))
      → Unique rows
      → lookup j (warm_cache env rows cache) ≡ read j (lookup j rows) (lookup j cache)
  unfolding warm_cache
  lookup-warm_cache j [] cache u = refl
  lookup-warm_cache j ((k, row) ∷ rows) cache u =
      let r = record_of env k row in
      let ih = lookup-warm_cache j rows (insert k r cache) u.1 in
      elim (Bool-cases (k == j)) [
        | inl q ↦
            let e = key_eq.beq_iff k j in
            rw (ih, q) (rw (← (e.0 q), u.0) (lookup-insert_self k r cache))
        | inr q ↦ rw (ih, q) (ap (read j (lookup j rows)) (lookup-insert k j r cache ∙ rw q))
      ]

  pub open_manager-IsCoherent :
      (rows : Dict Key (Row T)) (audit : List (AuditRecord T))
      → Unique rows
      → IsCoherent env (open_manager env rows audit)
  unfolding open_manager
  open_manager-IsCoherent rows audit u k = ground (arith, lookup-warm_cache k rows [] u)

  -- The calls on a manager. A callback's own calls on it are not represented.
  pub data Step (m : Manager V T C) : Manager V T C → Type 0 where
    sets :
        (domain key : String) (v : V) (now : T) (role actor : Option String)
        → Step m (set env domain key v now role actor m).1
    sets_if_version :
        (domain key : String) (v : V) (n : ℕ) (now : T) (role actor : Option String)
        → Step m (set_if_version env domain key v n now role actor m).1
    deletes :
        (domain key : String) (now : T) (role actor : Option String)
        → Step m (delete env domain key now role actor m).1
    gets :
        (domain key : String) (default : V) (role : Option String)
        → Step m (get env domain key default role m).1
    publishes :
        (value_of : EventPayload V T → V) (domain event_name : String) (e : EventInput V T)
        (now : T) (source : Option String)
        → Step m (publish_event env value_of domain event_name e now source m).1
    subscribes :
        (domain key : String) (c : C) (role : Option String)
        → Step m (subscribe domain key c role m).1
    unsubscribes :
        ⦃eq : Eq C⦄ (domain key : String) (c : C) (role : Option String)
        → Step m (unsubscribe domain key c role m).1
    clears : Step m (clear_event_errors m)

  pub data Reach (m : Manager V T C) : Manager V T C → Type 0 where
    here : Reach m m
    next : {n o : Manager V T C} → Reach m n → Step n o → Reach m o

  check_version-unchanged :
      (domain key : String) (n : ℕ) (role : Option String) (m : Manager V T C)
      → IsCoherent env m
      → (check_version env domain key n role m).1 ≡ m
  unfolding check_version
  check_version-unchanged domain key n role m h =
      ground (arith, get_record-unchanged env domain key role m h)

  pub set_if_version-IsCoherent :
      (domain key : String) (v : V) (n : ℕ) (now : T) (role actor : Option String)
      (m : Manager V T C)
      → IsCoherent env m
      → IsCoherent env (set_if_version env domain key v n now role actor m).1
  unfolding set_if_version
  set_if_version-IsCoherent domain key v n now role actor m h =
      let same = check_version-unchanged domain key n role m h in
      elim (Result-cases (check_version env domain key n role m).0) [
        | inl (u, q) ↦
            let e : (set_if_version env domain key v n now role actor m).1
                ≡ (set env domain key v now role actor m).1 =
              ground arith in
            subst (IsCoherent env) (sym e) (set-IsCoherent env domain key v now role actor m h)
        | inr (x, q) ↦
            let e : (set_if_version env domain key v n now role actor m).1 ≡ m = ground arith in
            subst (IsCoherent env) (sym e) h
      ]

  publish-IsCoherent :
      (value_of : EventPayload V T → V) (domain : String) (p : EventPayload V T) (now : T)
      (m : Manager V T C)
      → IsCoherent env m
      → IsCoherent env (publish env value_of domain p now m).1
  unfolding publish
  publish-IsCoherent value_of domain p now m h =
      let key = event_key p.event_name in
      let same = get_record-unchanged env domain key none m h in
      elim (Result-cases (get_record env domain key none m).0) [
        | inl (u, q) ↦
            let e : (publish env value_of domain p now m).1
                ≡ (set env domain key (value_of p) now none none m).1 =
              ground arith in
            subst (IsCoherent env) (sym e)
              (set-IsCoherent env domain key (value_of p) now none none m h)
        | inr (x, q) ↦
            let e : (publish env value_of domain p now m).1 ≡ m = ground arith in
            subst (IsCoherent env) (sym e) h
      ]

  publish_event-IsCoherent :
      (value_of : EventPayload V T → V) (domain event_name : String) (e : EventInput V T) (now : T)
      (source : Option String) (m : Manager V T C)
      → IsCoherent env m
      → IsCoherent env (publish_event env value_of domain event_name e now source m).1
  unfolding publish_event
  publish_event-IsCoherent value_of domain event_name e now source m h =
      elim (Result-cases (event_payload domain event_name e source)) [
        | inr (x, q) ↦ rw (q, publish_event) h
        | inl (p, q) ↦ rw (q, publish_event) (publish-IsCoherent value_of domain p now m h)
      ]

  subscribe_store :
      (domain key : String) (c : C) (role : Option String) (m : Manager V T C)
      → ((subscribe domain key c role m).1.rows ≡ m.rows)
        × ((subscribe domain key c role m).1.cache ≡ m.cache)
  unfolding subscribe
  subscribe_store domain key c role m = ground arith

  unsubscribe_store :
      ⦃eq : Eq C⦄ (domain key : String) (c : C) (role : Option String) (m : Manager V T C)
      → ((unsubscribe domain key c role m).1.rows ≡ m.rows)
        × ((unsubscribe domain key c role m).1.cache ≡ m.cache)
  unfolding unsubscribe
  unsubscribe_store domain key c role m = ground arith

  Step-IsCoherent : {m n : Manager V T C} → Step m n → IsCoherent env m → IsCoherent env n
  unfolding clear_event_errors
  Step-IsCoherent {m} (sets domain key v now role actor) h =
      set-IsCoherent env domain key v now role actor m h
  Step-IsCoherent {m} (sets_if_version domain key v n now role actor) h =
      set_if_version-IsCoherent domain key v n now role actor m h
  Step-IsCoherent {m} (deletes domain key now role actor) h =
      delete-IsCoherent env domain key now role actor m h
  Step-IsCoherent {m} (gets domain key default role) h =
      subst (IsCoherent env) (sym (get-unchanged env domain key default role m h)) h
  Step-IsCoherent {m} (publishes value_of domain event_name e now source) h =
      publish_event-IsCoherent value_of domain event_name e now source m h
  Step-IsCoherent {m} (subscribes domain key c role) h =
      λ k. let e = subscribe_store domain key c role m in rw (e.0, e.1) (h k)
  Step-IsCoherent {m} (unsubscribes ⦃eq⦄ domain key c role) h =
      λ k. let e = unsubscribe_store ⦃eq = eq⦄ domain key c role m in rw (e.0, e.1) (h k)
  Step-IsCoherent {m} clears h = h

  -- Whatever calls have been made on a manager that was opened over a table with its primary key,
  -- the cache and the table agree on every key.
  pub Reach-IsCoherent :
      (rows : Dict Key (Row T)) (audit : List (AuditRecord T)) {m : Manager V T C}
      → Unique rows
      → Reach (open_manager env rows audit) m
      → IsCoherent env m
  Reach-IsCoherent rows audit u here = open_manager-IsCoherent rows audit u
  Reach-IsCoherent rows audit u (next p st) = Step-IsCoherent st (Reach-IsCoherent rows audit u p)
