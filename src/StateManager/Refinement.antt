-- ===== src/StateManager/Refinement.antt =====
-- The manager refines its view.
use offline_companion_core.Base.{
  ℕ, ◌+◌, String, ◌≡◌, refl, ap, ◌∙◌, inl, inr, Option, none, some, List, [], ◌∷◌, arith, nat_beq,
  Bool-cases, Option-cases, ◌==◌, nat_eq, string_eq, pair_eq, ok, err, Result-cases,
}
use offline_companion_core.Base.Dict.{Dict, Unique, lookup, erase, lookup-insert, lookup-erase}
use offline_companion_core.StateManager.Types.{
  Key, StateRecord, Row, AuditRecord, Manager, StateError, Platform,
}
use offline_companion_core.StateManager.Access.{validate, actor_of}
use offline_companion_core.StateManager.Store.{
  open_manager, warm_cache, get, store, commit, set, set_if_version, drop_record, delete,
  next_version, check_version, get_record,
}
use offline_companion_core.StateManager.Coherence.{
  IsCoherent, drop_record-IsCoherent, store-IsCoherent, fetch-IsCoherent,
}
use offline_companion_core.StateManager.History.{open_manager-IsCoherent, lookup-warm_cache}
use offline_companion_core.StateManager.Versions.{
  stored_version, cached_version, set_if_version_decides,
}
use offline_companion_core.StateManager.View.{
  Call, sets, sets_if_version, deletes, gets, Answer, wrote, found, View, seen, wrote_of,
  version_in, value_in, update, view, view_of_row, table_view, perform, written, specified, run,
  specify,
}

value_seen :
    {V T : Type 0} (default : V) (r : Option (StateRecord V T))
    → elim r [ none ↦ default | some s ↦ s.value ] ≡ value_in default (seen r)
value_seen default none = refl
value_seen default (some s) = refl

module _ {V T C : Type 0} (env : Platform V T C) where
  -- The manager is coherent and shows the view.
  pub record Shows (m : Manager V T C) (f : View V) : Type 0 where
    pub coherent : IsCoherent env m
    pub shown : (k : Key) → view env m k ≡ f k

  abbrev pub Matches : Answer V × Manager V T C → Answer V × View V → Type 0
  Matches (a, m) (b, f) = (a ≡ b) × Shows m f

  next_version_seen :
      (k : Key) (m : Manager V T C) (f : View V)
      → Shows m f
      → next_version (lookup k m.cache) ≡ version_in (f k) + 1
  next_version_seen k m f s = rw (← s.shown k) (ground arith)

  store-seen :
      (k : Key) (v : V) (payload : String) (now : T) (actor : String) (m : Manager V T C)
      (f : View V)
      → Shows m f
      → (j : Key)
      → view env (store env k v payload now actor m).1 j
        ≡ update k (some (v, version_in (f k) + 1)) f j
  unfolding store commit
  store-seen k v payload now actor m f s j =
      let r : StateRecord V T = record {
        domain = k.0;
        key = k.1;
        value = v;
        updated_at = now;
        version = next_version (lookup k m.cache);
      } in
      let e = next_version_seen k m f s in
      elim (Bool-cases (k == j)) [
        | inl q ↦ rw (lookup-insert k j r m.cache, q, e) refl
        | inr q ↦ rw (lookup-insert k j r m.cache, q) (s.shown j)
      ]

  set-Matches :
      (domain key : String) (v : V) (now : T) (role actor : Option String) (m : Manager V T C)
      (f : View V)
      → Shows m f
      → validate domain key role ≡ ok tt
      → let r = set env domain key v now role actor m in
        Matches (wrote_of r.0, r.1) (written env (domain, key) v f)
  unfolding set store commit
  set-Matches domain key v now role actor m f s a =
      let k : Key = (domain, key) in
      elim (Option-cases (env.dumps v)) [
        | inl q ↦ rw (a, q, set, written) (refl, s)
        | inr (payload, q) ↦
            let e = next_version_seen k m f s in
            let c' =
              store-IsCoherent env k v payload now (actor_of actor role domain) m q s.coherent in
            rw (a, q, set, written)
              (
                ap (wrote v) e,
                record {
                  coherent = c';
                  shown = store-seen k v payload now (actor_of actor role domain) m f s;
                },
              )
      ]

  set_if_version-Matches :
      (domain key : String) (v : V) (n : ℕ) (now : T) (role actor : Option String)
      (m : Manager V T C) (f : View V)
      → Shows m f
      → validate domain key role ≡ ok tt
      → Matches
          (perform env (sets_if_version domain key v n now role actor) m)
          (specified env (sets_if_version domain key v n now role actor) f)
  unfolding perform specified
  set_if_version-Matches domain key v n now role actor m f s a =
      let d = set_if_version_decides env domain key v n now role actor m s.coherent a in
      let seen_version : version_in (f (domain, key)) ≡ stored_version (domain, key) m =
        rw (← s.shown (domain, key), ← cached_version env (domain, key) m s.coherent)
          (ground arith) in
      elim (Bool-cases (nat_beq (stored_version (domain, key) m) n)) [
        | inl q ↦
            rw (d, specified, a, seen_version, q) (set-Matches domain key v now role actor m f s a)
        | inr q ↦ rw (d, specified, a, seen_version, q) (refl, s)
      ]

  delete-seen :
      (k : Key) (now : T) (actor : String) (m : Manager V T C) (f : View V)
      → Shows m f
      → (j : Key) → view env (drop_record env k now actor m) j ≡ update k none f j
  unfolding drop_record
  delete-seen k now actor m f s j =
      let erased : seen (lookup j (erase k m.cache)) ≡ update k none f j =
        elim (Bool-cases (k == j)) [
          | inl q ↦ rw (lookup-erase k j m.cache, q) refl
          | inr q ↦ rw (lookup-erase k j m.cache, q) (s.shown j)
        ] in
      elim (Option-cases (lookup k m.cache)) [
        | inl q ↦ rw (q, drop_record) erased
        | inr (r, q) ↦ rw (q, drop_record) erased
      ]

  abbrev Simulated : Call V T → Type 0
  Simulated c =
      (m : Manager V T C) (f : View V) → Shows m f → Matches (perform env c m) (specified env c f)

  sets-Matches :
      (domain key : String) (v : V) (now : T) (role actor : Option String)
      → Simulated (sets domain key v now role actor)
  unfolding perform specified set
  sets-Matches domain key v now role actor m f s = elim (Result-cases (validate domain key role)) [
    | inr (e, q) ↦ rw (specified, set, q) (refl, s)
    | inl (u, q) ↦ rw (specified, q) (set-Matches domain key v now role actor m f s q)
  ]

  set_if_version_denied :
      (domain key : String) (v : V) (n : ℕ) (now : T) (role actor : Option String)
      (m : Manager V T C) (e : StateError)
      → validate domain key role ≡ err e
      → set_if_version env domain key v n now role actor m ≡ (err e, m)
  unfolding set_if_version check_version get_record
  set_if_version_denied domain key v n now role actor m e q = ground arith

  sets_if_version-Matches :
      (domain key : String) (v : V) (n : ℕ) (now : T) (role actor : Option String)
      → Simulated (sets_if_version domain key v n now role actor)
  unfolding perform specified
  sets_if_version-Matches domain key v n now role actor m f s =
      elim (Result-cases (validate domain key role)) [
        | inr (e, q) ↦
            rw (set_if_version_denied domain key v n now role actor m e q, specified, q) (refl, s)
        | inl (u, q) ↦ set_if_version-Matches domain key v n now role actor m f s q
      ]

  deletes-Matches :
      (domain key : String) (now : T) (role actor : Option String)
      → Simulated (deletes domain key now role actor)
  unfolding perform specified delete
  deletes-Matches domain key now role actor m f s = elim (Result-cases (validate domain key role)) [
    | inr (e, q) ↦ rw (specified, delete, q) (refl, s)
    | inl (u, q) ↦
        let by = actor_of actor role domain in
        rw (specified, delete, q)
          (
            refl,
            record {
              coherent = drop_record-IsCoherent env (domain, key) now by m s.coherent;
              shown = delete-seen (domain, key) now by m f s;
            },
          )
  ]

  gets-Matches :
      (domain key : String) (default : V) (role : Option String)
      → Simulated (gets domain key default role)
  unfolding perform specified get
  gets-Matches domain key default role m f s = elim (Result-cases (validate domain key role)) [
    | inr (e, q) ↦ rw (specified, get, q) (refl, s)
    | inl (u, q) ↦
        rw (specified, get, q, fetch-IsCoherent env (domain, key) m s.coherent)
          (
            ap found (
                value_seen default (lookup (domain, key) m.cache)
                ∙ ap (value_in default) (s.shown (domain, key))),
            s,
          )
  ]

  perform-Matches : (c : Call V T) → Simulated c
  perform-Matches (sets domain key v now role actor) = sets-Matches domain key v now role actor
  perform-Matches (sets_if_version domain key v n now role actor) =
      sets_if_version-Matches domain key v n now role actor
  perform-Matches (deletes domain key now role actor) = deletes-Matches domain key now role actor
  perform-Matches (gets domain key default role) = gets-Matches domain key default role

  run-Matches :
      (cs : List (Call V T)) (m : Manager V T C) (f : View V)
      → Shows m f
      → ((run env cs m).0 ≡ (specify env cs f).0) × Shows (run env cs m).1 (specify env cs f).1
  unfolding run specify
  run-Matches [] m f s = (refl, s)
  run-Matches (c ∷ cs) m f s =
      let one = perform-Matches c m f s in
      let rest = run-Matches cs (perform env c m).1 (specified env c f).1 one.1 in
      (rw (one.0, rest.0) refl, rest.1)

  open_manager-Shows :
      (rows : Dict Key (Row T)) (audit : List (AuditRecord T))
      → Unique rows
      → Shows (open_manager env rows audit) (table_view env rows)
  unfolding open_manager
  open_manager-Shows rows audit u = record {
    coherent = open_manager-IsCoherent env rows audit u;
    shown = λ k. opened k;
  }
    where
      opened :
          (k : Key) → seen (lookup k (warm_cache env rows [])) ≡ view_of_row env (lookup k rows)
      opened k =
          rw (lookup-warm_cache env k rows [] u)
            (elim (Option-cases (lookup k rows)) [ inl q ↦ rw q refl | inr (row, q) ↦ rw q refl ])

  -- Any calls of `set`, `set_if_version`, `delete` and `get` on a manager that was opened over a table
  -- with its primary key answer as they do on a map of values and versions that starts as the table,
  -- errors included; and each key then reads, in the cache, as it does in that map.
  pub run_refines :
      (cs : List (Call V T)) (rows : Dict Key (Row T)) (audit : List (AuditRecord T))
      → Unique rows
      → let opened = open_manager env rows audit in
        let f = table_view env rows in
        ((run env cs opened).0 ≡ (specify env cs f).0)
        × ((k : Key) → view env (run env cs opened).1 k ≡ (specify env cs f).1 k)
  run_refines cs rows audit u =
      let r =
        run-Matches cs (open_manager env rows audit) (table_view env rows)
          (open_manager-Shows rows audit u) in
      (r.0, r.1.shown)
