-- ===== src/StateManager/Coherence.antt =====
-- The cache and the table agree on every key, whatever calls are made.
use offline_companion_core.Base.{
  String, ◌≡◌, refl, subst, ◌⊎◌, inl, inr, Option, none, some, arith, Bool-cases, Option-cases, Eq,
  ◌==◌, nat_eq, string_eq, pair_eq, Result-cases,
}
use offline_companion_core.Base.Dict.{lookup, insert, erase, lookup-insert, lookup-erase}
use offline_companion_core.StateManager.Types.{Key, StateRecord, Row, Manager, Platform}
use offline_companion_core.StateManager.Access.{validate, actor_of}
use offline_companion_core.StateManager.Store.{
  fetch, get_record, get, store, commit, set, drop_record, delete, next_version,
}

abbrev pub key_eq : Eq Key
key_eq = pair_eq

module _ {V T C : Type 0} (env : Platform V T C) where
  -- A cached record stands for its row: the same version and time, the key's own names, and a value
  -- that was written as the row's text or read from it.
  abbrev pub Agrees : Key → Option (Row T) → Option (StateRecord V T) → Type 0
  Agrees k none none = Unit {0}
  Agrees k (some row) (some r) =
      (r.version ≡ row.version)
      × (r.updated_at ≡ row.updated_at)
      × (r.domain ≡ k.0)
      × (r.key ≡ k.1)
      × ((env.dumps r.value ≡ some row.value_json) ⊎ (r.value ≡ env.loads row.value_json))
  Agrees k none (some _) = ⊥
  Agrees k (some _) none = ⊥

  abbrev pub IsCoherent : Manager V T C → Type 0
  IsCoherent m = (k : Key) → Agrees k (lookup k m.rows) (lookup k m.cache)

  -- Only the table and the cache matter.
  abbrev SameStore : Manager V T C → Manager V T C → Type 0
  SameStore m m' = (m'.rows ≡ m.rows) × (m'.cache ≡ m.cache)

  SameStore-IsCoherent : (m m' : Manager V T C) → SameStore m m' → IsCoherent m → IsCoherent m'
  SameStore-IsCoherent m m' e h k = rw (e.0, e.1) (h k)

  -- A coherent manager finds every row in its cache: reading changes nothing.
  pub fetch-IsCoherent :
      (k : Key) (m : Manager V T C) → IsCoherent m → fetch env k m ≡ (lookup k m.cache, m)
  unfolding fetch
  fetch-IsCoherent k m h = ground (arith, h k)

  Agrees-insert :
      (k j : Key) (row : Row T) (r : StateRecord V T) (m : Manager V T C)
      → Agrees k (some row) (some r)
      → IsCoherent m
      → Agrees j (lookup j (insert k row m.rows)) (lookup j (insert k r m.cache))
  Agrees-insert k j row r m a h = elim (Bool-cases (k == j)) [
    | inl q ↦
        rw (lookup-insert k j row m.rows, lookup-insert k j r m.cache, q)
          (subst (λ i. Agrees i (some row) (some r)) ((key_eq.beq_iff k j).0 q) a)
    | inr q ↦ rw (lookup-insert k j row m.rows, lookup-insert k j r m.cache, q) (h j)
  ]

  Agrees-erase :
      (k j : Key) (m : Manager V T C)
      → IsCoherent m
      → Agrees j (lookup j (erase k m.rows)) (lookup j (erase k m.cache))
  Agrees-erase k j m h = elim (Bool-cases (k == j)) [
    | inl q ↦ rw (lookup-erase k j m.rows, lookup-erase k j m.cache, q) tt
    | inr q ↦ rw (lookup-erase k j m.rows, lookup-erase k j m.cache, q) (h j)
  ]

  -- A write keeps the table and the cache in agreement.
  pub store-IsCoherent :
      (k : Key) (value : V) (payload : String) (now : T) (actor : String) (m : Manager V T C)
      → env.dumps value ≡ some payload
      → IsCoherent m
      → IsCoherent (store env k value payload now actor m).1
  unfolding store commit
  store-IsCoherent k value payload now actor m d h j =
      Agrees-insert k j
        (record {
          value_json = payload;
          updated_at = now;
          version = next_version (lookup k m.cache);
        })
        (record {
          domain = k.0;
          key = k.1;
          value = value;
          updated_at = now;
          version = next_version (lookup k m.cache);
        })
        m (refl, refl, refl, refl, inl d) h

  pub set-IsCoherent :
      (domain key : String) (value : V) (now : T) (role actor : Option String) (m : Manager V T C)
      → IsCoherent m
      → IsCoherent (set env domain key value now role actor m).1
  unfolding set
  set-IsCoherent domain key value now role actor m h =
      elim (Result-cases (validate domain key role)) [
        | inr (e, q) ↦ rw (q, set) h
        | inl (u, q) ↦ elim (Option-cases (env.dumps value)) [
          | inl n ↦ rw (q, n, set) h
          | inr (payload, p) ↦
              rw (q, p, set)
                (store-IsCoherent (domain, key) value payload now (actor_of actor role domain) m p
                  h)
        ]
      ]

  pub drop_record-IsCoherent :
      (k : Key) (now : T) (actor : String) (m : Manager V T C)
      → IsCoherent m
      → IsCoherent (drop_record env k now actor m)
  unfolding drop_record
  drop_record-IsCoherent k now actor m h j = elim (Option-cases (lookup k m.cache)) [
    | inl q ↦ rw (q, drop_record) (Agrees-erase k j m h)
    | inr (r, q) ↦ rw (q, drop_record) (Agrees-erase k j m h)
  ]

  pub delete-IsCoherent :
      (domain key : String) (now : T) (role actor : Option String) (m : Manager V T C)
      → IsCoherent m
      → IsCoherent (delete env domain key now role actor m).1
  unfolding delete
  delete-IsCoherent domain key now role actor m h = elim (Result-cases (validate domain key role)) [
    | inr (e, q) ↦ rw (q, delete) h
    | inl (u, q) ↦
        rw (q, delete) (drop_record-IsCoherent (domain, key) now (actor_of actor role domain) m h)
  ]

  -- Reading a coherent manager changes nothing.
  pub get_record-unchanged :
      (domain key : String) (role : Option String) (m : Manager V T C)
      → IsCoherent m
      → (get_record env domain key role m).1 ≡ m
  unfolding get_record
  get_record-unchanged domain key role m h = ground (arith, fetch-IsCoherent (domain, key) m h)

  pub get-unchanged :
      (domain key : String) (default : V) (role : Option String) (m : Manager V T C)
      → IsCoherent m
      → (get env domain key default role m).1 ≡ m
  unfolding get
  get-unchanged domain key default role m h = ground (arith, fetch-IsCoherent (domain, key) m h)
