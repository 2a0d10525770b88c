-- ===== src/EventStream/Registry.antt =====
-- The registry of event types, core/event_stream/registry.py. A negative version fails the same
-- test as 0 and is not represented.
use offline_companion_core.Base.{
  ℕ, String, none, some, List, [], ◌∷◌, ltb, if◌then◌else◌, Result, ok, err, ◌>>=◌, string_eq,
}
use offline_companion_core.Base.Text.{is_empty}
use offline_companion_core.Base.Dict.{Dict, lookup, insert, member}
use offline_companion_core.EventStream.Types.{Payload, dict, other}

pub data RegistryError : Type 0 where
  duplicate_type empty_type bad_version unknown_type payload_not_dict : RegistryError

abbrev pub Registry : Type 0
Registry = Dict String ℕ

-- The tests stand in the order of the source.
unfoldable pub register : String → ℕ → Registry → Result RegistryError Registry
register event_type schema_version r =
    if member event_type r
    then err duplicate_type
    else (if is_empty event_type
        then err empty_type
        else (if ltb schema_version 1
            then err bad_version
            else ok (insert event_type schema_version r)))

-- The constructor's loop over the initial types and versions.
unfoldable pub from_types : List (String × ℕ) → Registry → Result RegistryError Registry
from_types [] r = ok r
from_types ((t, v) ∷ ts) r = register t v r >>= λ r'. from_types ts r'

unfoldable pub schema_version : String → Registry → Result RegistryError ℕ
schema_version event_type r = elim (lookup event_type r) [ none ↦ err unknown_type | some v ↦ ok v ]

unfoldable pub validate : {V : Type 0} → String → Payload V → Registry → Result RegistryError ℕ
validate event_type p r = elim (lookup event_type r) [
  | none ↦ err unknown_type
  | some v ↦ elim p [ dict d ↦ ok v | other x ↦ err payload_not_dict ]
]
