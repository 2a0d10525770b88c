-- ===== src/EventStream/Types.antt =====
-- The envelope of a domain event, core/event_stream/types.py. `V` stands for the JSON values and
-- `T` for the timestamps (floats), which the code stores and never computes with.
use offline_companion_core.Base.{ℕ, String}
use offline_companion_core.Base.Dict.{Dict}

-- What `json.loads` may give back: a dict, or some other value.
pub data Payload (V : Type 0) : Type 0 where
  dict : Dict String V → Payload V
  other : V → Payload V

pub record DomainEvent (V T : Type 0) : Type 0 where
  pub event_id : String
  pub stream_id : String
  pub seq : ℕ
  pub event_type : String
  pub timestamp : T
  pub schema_version : ℕ
  pub payload : Payload V
