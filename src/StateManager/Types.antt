-- ===== src/StateManager/Types.antt =====
-- The records of core/state_manager.py: a state record, the two tables, the manager's own state,
-- and its errors. `V` stands for the values, `T` for the times (floats), `C` for the callbacks.
use offline_companion_core.Base.{ℕ, String, Bool, Option, List, nat_eq, string_eq, pair_eq, Result}
use offline_companion_core.Base.Dict.{Dict}

abbrev pub Key : Type 0
Key = String × String

pub record StateRecord (V T : Type 0) : Type 0 where
  pub domain : String
  pub key : String
  pub value : V
  pub updated_at : T
  pub version : ℕ

-- A row of `state_store`, behind its primary key.
pub record Row (T : Type 0) : Type 0 where
  pub value_json : String
  pub updated_at : T
  pub version : ℕ

pub data Operation : Type 0 where
  sets deletes : Operation

-- A row of `state_audit_log`.
pub record AuditRecord (T : Type 0) : Type 0 where
  pub domain : String
  pub key : String
  pub actor : String
  pub operation : Operation
  pub old_value_json : Option String
  pub new_value_json : Option String
  pub version : ℕ
  pub updated_at : T

pub record EventError (T : Type 0) : Type 0 where
  pub domain : String
  pub key : String
  pub callback_name : String
  pub error : String
  pub occurred_at : T

pub record Manager (V T C : Type 0) : Type 0 where
  pub rows : Dict Key (Row T)
  pub audit : List (AuditRecord T)
  pub cache : Dict Key (StateRecord V T)
  pub subscribers : Dict Key (List C)
  pub event_errors : List (EventError T)

pub data EventFault : Type 0 where
  bad_name no_trace_id no_source negative_version : EventFault

pub data StateError : Type 0 where
  access_denied : String → String → StateError
  version_conflict : ℕ → ℕ → StateError
  event_invalid : EventFault → StateError
  not_serializable : StateError

-- What the code uses of `json` and of the callbacks: `dumps` may raise, and `raises c new old` is
-- the text and the time of the exception that the callback `c` raises, if it does.
pub record Platform (V T C : Type 0) : Type 0 where
  pub dumps : V → Option String
  pub loads : String → V
  pub null : V
  pub is_null : V → Bool
  pub name_of : C → String
  pub raises : C → StateRecord V T → Option (StateRecord V T) → Option (String × T)

-- A method gives its result, or raises; either way it leaves a manager.
abbrev pub Outcome : Type 0 → Type 0 → Type 0 → Type 0 → Type 0
Outcome V T C A = Result StateError A × Manager V T C
