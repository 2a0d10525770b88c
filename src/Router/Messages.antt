-- ===== src/Router/Messages.antt =====
-- `BaseMessage` of shared/messages.py. `P` stands for the payload; the fields that the router neither
-- reads nor writes are left out (`direction`, `created_at`, `error`), and `timeout_sec` with them,
-- since how long a call may take is not represented.
use offline_companion_core.Base.{
  String, Bool, not, ◌||◌, Option, none, some, [], ◌∷◌, if◌then◌else◌, ◌==◌, nat_eq, string_eq,
  pair_eq, Result, ok, ◌>>◌, guard,
}
use offline_companion_core.Base.Text.{is_empty, strip, or_else, cut_at}
use offline_companion_core.Base.Dict.{Dict, insert}

pub data MessageError : Type 0 where
  no_message_id no_topic no_source bad_queue_type : MessageError

pub record Message (P : Type 0) : Type 0 where
  pub message_id : String
  pub topic : String
  pub source : String
  pub target : Option String
  pub session_id : String
  pub idempotency_key : Option String
  pub queue_type : String
  pub payload : P
  pub meta : Dict String String

-- `s.strip() or None`
abbrev pub stripped : Option String → Option String
stripped none = none
stripped (some s) = if is_empty (strip s) then none else some (strip s)

-- `(queue_type or "dialog").strip() or "dialog"`
abbrev pub queue_or_dialog : String → String
queue_or_dialog q = or_else (strip (or_else q "dialog")) "dialog"

abbrev pub known_queue : String → Bool
known_queue q = q == "dialog" || q == "background"

-- `dict.update`
abbrev pub merge : Dict String String → Dict String String → Dict String String
merge d [] = d
merge d ((k, v) ∷ extra) = merge (insert k v d) extra

-- `namespace()`: the topic up to its first dot.
unfoldable pub namespace : String → String
namespace topic = elim (cut_at b'.' topic) [ none ↦ topic | some (front, back) ↦ strip front ]

module _ {P : Type 0} where
  -- `__post_init__`
  unfoldable pub post_init : Message P → Result MessageError (Message P)
  post_init m = do
    guard (not (is_empty (strip m.message_id))) no_message_id
    guard (not (is_empty (strip m.topic))) no_topic
    guard (not (is_empty (strip m.source))) no_source
    guard (known_queue (queue_or_dialog m.queue_type)) bad_queue_type
    ok (record m {
      message_id = strip m.message_id;
      topic = strip m.topic;
      source = strip m.source;
      target = stripped m.target;
      session_id = strip m.session_id;
      idempotency_key = stripped m.idempotency_key;
      queue_type = queue_or_dialog m.queue_type;
    })

  -- `with_meta` makes a new message, which is checked again.
  unfoldable pub with_meta : Dict String String → Message P → Result MessageError (Message P)
  with_meta extra m = post_init (record m { meta = merge m.meta extra })
