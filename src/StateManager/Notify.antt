-- ===== src/StateManager/Notify.antt =====
-- Subscription and notification.
use offline_companion_core.Base.{
  String, Bool, true, false, Option, none, some, List, [], ◌∷◌, ◌++◌, if◌then◌else◌, Eq, nat_eq,
  string_eq, pair_eq, ok, err,
}
use offline_companion_core.Base.Text.{strip, or_else}
use offline_companion_core.Base.Dict.{lookup, insert, erase}
use offline_companion_core.StateManager.Types.{
  Key, StateRecord, EventError, Manager, Platform, Outcome,
}
use offline_companion_core.StateManager.Access.{validate}

-- `(key or "").strip() or "*"`
abbrev pub normalized_key : String → String
normalized_key key = or_else (strip key) "*"

abbrev pub listed : {A : Type 0} → Option (List A) → List A
listed none = []
listed (some xs) = xs

module _ {C : Type 0} ⦃eq : Eq C⦄ where
  -- `list.remove`, which raises where the value is missing: `none`.
  abbrev pub remove : C → List C → Option (List C)
  remove c [] = none
  remove c (d ∷ ds) =
      let rest = remove c ds in
      if eq.beq d c then some ds else elim rest [ none ↦ none | some r ↦ some (d ∷ r) ]

module _ {V T C : Type 0} where
  unfoldable pub subscribe :
      String → String → C → Option String → Manager V T C → Outcome V T C (Unit {0})
  subscribe domain key callback role m = elim (validate domain key role) [
    | err e ↦ (err e, m)
    | ok _ ↦
        let k : Key = (domain, normalized_key key) in
        (
          ok tt,
          record m {
            subscribers = insert k (listed (lookup k m.subscribers) ++ callback ∷ []) m.subscribers;
          },
        )
  ]

  -- The part of `unsubscribe` under the lock; `callbacks` is the list that `remove` leaves.
  abbrev pub removed : Key → Option (List C) → Manager V T C → Bool × Manager V T C
  removed k none m = (false, m)
  removed k (some []) m = (true, record m { subscribers = erase k m.subscribers })
  removed k (some (c ∷ cs)) m = (true, record m { subscribers = insert k (c ∷ cs) m.subscribers })

  unfoldable pub unsubscribe :
      ⦃eq : Eq C⦄ → String → String → C → Option String → Manager V T C → Outcome V T C Bool
  unsubscribe ⦃eq⦄ domain key callback role m = elim (validate domain key role) [
    | err e ↦ (err e, m)
    | ok _ ↦
        let k : Key = (domain, normalized_key key) in
        let (found, m') = removed k (remove callback (listed (lookup k m.subscribers))) m in
        (ok found, m')
  ]

  unfoldable pub clear_event_errors : Manager V T C → Manager V T C
  clear_event_errors m = record m { event_errors = [] }

  -- The loop of `_notify`: the errors that the callbacks leave.
  unfoldable pub call_each :
      Platform V T C
      → StateRecord V T
      → Option (StateRecord V T)
      → List C
      → List (EventError T)
      → List (EventError T)
  call_each env new old [] errors = errors
  call_each env new old (c ∷ cs) errors = call_each env new old cs (elim (env.raises c new old) [
    | none ↦ errors
    | some (text, at) ↦
        errors
        ++ record {
          domain = new.domain;
          key = new.key;
          callback_name = env.name_of c;
          error = text;
          occurred_at = at;
        }
          ∷ []
  ])

  -- The subscribers of the key, then those of the domain's wildcard.
  abbrev pub audience : String → String → Manager V T C → List C
  audience domain key m =
      listed (lookup (domain, key) m.subscribers) ++ listed (lookup (domain, "*") m.subscribers)

  unfoldable pub notify :
      Platform V T C → StateRecord V T → Option (StateRecord V T) → Manager V T C → Manager V T C
  unfolding call_each
  notify env new old m = record m {
    event_errors = call_each env new old (audience new.domain new.key m) m.event_errors;
  }
