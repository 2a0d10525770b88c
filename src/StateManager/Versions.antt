-- ===== src/StateManager/Versions.antt =====
-- Versions: what a write returns and stores, and what a version test decides.
use offline_companion_core.Base.{
  nat_beq, if◌then◌else◌, ℕ, ◌+◌, String, ◌≡◌, refl, sym, ap, ◌∙◌, subst, ◌≢◌, inl, inr, Option,
  none, some, [], ◌∷◌, ◌++◌, arith, Option-cases, nat_eq, string_eq, pair_eq, ok, err, Result-cases,
}
use offline_companion_core.Base.Dict.{lookup, lookup-insert_self, lookup-insert_ne}
use offline_companion_core.StateManager.Types.{
  Key, StateRecord, Row, sets, AuditRecord, Manager, StateError, version_conflict, Platform,
}
use offline_companion_core.StateManager.Access.{validate, actor_of}
use offline_companion_core.StateManager.Store.{
  audit_json, old_value, fetch, get_record, get, store, commit, set, check_version, set_if_version,
  next_version, version_of,
}
use offline_companion_core.StateManager.Coherence.{IsCoherent, fetch-IsCoherent}

abbrev pub row_version : {T : Type 0} → Option (Row T) → ℕ
row_version none = 0
row_version (some row) = row.version

module _ {V T C : Type 0} where
  -- The version of a key in the table; 0 where there is no row.
  abbrev pub stored_version : Key → Manager V T C → ℕ
  stored_version k m = row_version (lookup k m.rows)

module _ {V T C : Type 0} (env : Platform V T C) where
  pub cached_version :
      (k : Key) (m : Manager V T C)
      → IsCoherent env m
      → version_of (lookup k m.cache) ≡ stored_version k m
  cached_version k m h = ground (arith, h k)

  next_cached :
      (k : Key) (m : Manager V T C)
      → IsCoherent env m
      → next_version (lookup k m.cache) ≡ stored_version k m + 1
  next_cached k m h = ground (arith, h k)

  -- The text of a value in the audit log, by the row that holds it.
  abbrev pub logged : V → Option String
  logged v = if env.is_null v then none else env.dumps v

  -- What a write of `value` under `k` has done, by the record that it returned.
  pub record Wrote (k : Key) (value : V) (now : T) (actor : String) (m m' : Manager V T C)
      (r : StateRecord V T) : Type 0 where
    pub returned : r.value ≡ value
    pub counted : r.version ≡ stored_version k m + 1
    pub stored : stored_version k m' ≡ r.version
    pub row :
        (payload : String) × (env.dumps value ≡ some payload)
        × (lookup k m'.rows
            ≡ some (record {
              value_json = payload;
              updated_at = now;
              version = stored_version k m + 1;
            }))
    pub cached : lookup k m'.cache ≡ some r
    pub others : (j : Key) → k ≢ j → lookup j m'.rows ≡ lookup j m.rows
    pub audited :
        m'.audit
        ≡ m.audit
          ++ record {
            domain = k.0;
            key = k.1;
            actor = actor;
            operation = sets;
            old_value_json = elim (lookup k m.cache) [ none ↦ none | some old ↦ logged old.value ];
            new_value_json = logged value;
            version = stored_version k m + 1;
            updated_at = now;
          }
            ∷ []

  store-Wrote :
      (k : Key) (value : V) (payload : String) (now : T) (actor : String) (m : Manager V T C)
      → IsCoherent env m
      → env.dumps value ≡ some payload
      → Wrote k value now actor m
          (store env k value payload now actor m).1
          (store env k value payload now actor m).0
  unfolding store commit
  store-Wrote k value payload now actor m h d = record {
    returned = refl;
    counted = next_cached k m h;
    stored = rw (lookup-insert_self k (row_at (next_version (lookup k m.cache))) m.rows);
    row = (
      payload,
      d,
      lookup-insert_self k (row_at (next_version (lookup k m.cache))) m.rows
          ∙ ap (λ n. some (row_at n)) (next_cached k m h),
    );
    cached = lookup-insert_self k _ m.cache;
    others = λ j ne. lookup-insert_ne k j (row_at (next_version (lookup k m.cache))) m.rows ne;
    audited = audited_as (lookup k m.cache) refl;
  }
    where
      row_at : ℕ → Row T
      row_at n = record { value_json = payload; updated_at = now; version = n }

      entry : Option String → ℕ → AuditRecord T
      entry old n = record {
        domain = k.0;
        key = k.1;
        actor = actor;
        operation = sets;
        old_value_json = old;
        new_value_json = logged value;
        version = n;
        updated_at = now;
      }

      audited_as :
          (o : Option (StateRecord V T))
          → lookup k m.cache ≡ o
          → m.audit ++ entry (audit_json env (old_value o)) (next_version o) ∷ []
            ≡ m.audit
              ++ entry
                  (elim o [ none ↦ none | some old ↦ logged old.value ])
                  (stored_version k m + 1)
                ∷ []
      audited_as none q =
          ap (λ n. m.audit ++ entry none n ∷ []) (sym (ap next_version q) ∙ next_cached k m h)
      audited_as (some r) q =
          ap (λ n. m.audit ++ entry (logged r.value) n ∷ [])
            (sym (ap next_version q) ∙ next_cached k m h)

  -- A successful `set` returns the value under the version after the stored one; it stores the text
  -- of the value, the time and that version, and caches the record; it leaves every other key of the
  -- table alone; and it adds exactly one entry to the audit log, with the actor, the texts of the old
  -- value and of the new one, the version and the time.
  pub set-Wrote :
      (domain key : String) (value : V) (now : T) (role actor : Option String) (m : Manager V T C)
      (r : StateRecord V T)
      → IsCoherent env m
      → (set env domain key value now role actor m).0 ≡ ok r
      → Wrote
          (domain, key)
          value
          now
          (actor_of actor role domain)
          m
          (set env domain key value now role actor m).1
          r
  unfolding set
  set-Wrote domain key value now role actor m r h e =
      elim (Result-cases (validate domain key role)) [
        | inr (x, q) ↦ absurd (ground arith)
        | inl (u, q) ↦ elim (Option-cases (env.dumps value)) [
          | inl n ↦ absurd (ground arith)
          | inr (payload, p) ↦
              let w =
                store-Wrote (domain, key) value payload now (actor_of actor role domain) m h p in
              let e' : (store env (domain, key) value payload now (actor_of actor role domain) m).0
                  ≡ r =
                ground arith in
              rw (q, p, set)
                (subst
                  (λ s.
                    Wrote (domain, key) value now (actor_of actor role domain) m
                      (store env (domain, key) value payload now (actor_of actor role domain) m).1
                      s)
                  e' w)
        ]
      ]

  -- A `set` that raises leaves the manager as it was.
  pub set_refused :
      (domain key : String) (value : V) (now : T) (role actor : Option String) (m : Manager V T C)
      (x : StateError)
      → (set env domain key value now role actor m).0 ≡ err x
      → (set env domain key value now role actor m).1 ≡ m
  unfolding set
  set_refused domain key value now role actor m x e = ground arith

  -- `set_if_version` is `set` where the expected version is the stored one, and otherwise raises
  -- the conflict with both versions and changes nothing.
  pub set_if_version_decides :
      (domain key : String) (value : V) (expected : ℕ) (now : T) (role actor : Option String)
      (m : Manager V T C)
      → IsCoherent env m
      → validate domain key role ≡ ok tt
      → let stored = stored_version (domain, key) m in
        set_if_version env domain key value expected now role actor m ≡ (
          if nat_beq stored expected
          then set env domain key value now role actor m
          else (err (version_conflict expected stored), m))
  unfolding set_if_version check_version get_record
  set_if_version_decides domain key value expected now role actor m h a =
      let f = fetch-IsCoherent env (domain, key) m h in
      let c = cached_version (domain, key) m h in ground arith

  -- A reader with access finds the value that a successful `set` has just written.
  pub get-set :
      (domain key : String) (value default : V) (now : T) (role actor reader : Option String)
      (m : Manager V T C) (r : StateRecord V T)
      → IsCoherent env m
      → validate domain key reader ≡ ok tt
      → (set env domain key value now role actor m).0 ≡ ok r
      → (get env domain key default reader (set env domain key value now role actor m).1).0
        ≡ ok value
  unfolding get fetch
  get-set domain key value default now role actor reader m r h a e =
      let w = set-Wrote domain key value now role actor m r h e in
      let c = w.cached in let v = w.returned in ground arith
