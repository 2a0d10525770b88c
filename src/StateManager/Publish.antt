-- ===== src/StateManager/Publish.antt =====
-- The event names and `publish_event`. The text that `str()` makes of a field, the number that
-- `int()` makes of it and the dict of the event's data are the fields of `EventInput`.
use offline_companion_core.Base.{
  ℕ, ◌+◌, String, Bool, true, false, not, ◌&&◌, Option, none, some, leb, nat_beq, if◌then◌else◌,
  nat_eq, string_eq, pair_eq, Result, ok, err, ◌>>=◌, ◌>>◌, guard,
}
use offline_companion_core.Base.Text.{is_empty, strip, or_else}
use Prim.Native.Char.{code}
use Prim.Native.String.{◌++◌ as append}
use offline_companion_core.StateManager.Types.{
  Manager, StateError, access_denied, version_conflict, event_invalid, bad_name, no_trace_id,
  no_source, negative_version, Platform, Outcome,
}
use offline_companion_core.StateManager.Access.{allowed_domain}
use offline_companion_core.StateManager.Store.{get_record, set, version_of}

abbrev pub is_lower : ℕ → Bool
is_lower c = leb 97 c && leb c 122

-- The pattern `^[a-z]+(?:_[a-z]+)*(?:\.[a-z]+(?:_[a-z]+)*)+$` read letter by letter. `in_word` tells
-- that a letter of the current word has been read, `dotted` that a dot has. As in Python, `$` also
-- stands before a line feed that ends the text.
unfoldable pub matches : Bool → Bool → String → Bool
matches in_word dotted String.[] = in_word && dotted
matches in_word dotted (String.◌∷◌ c s) =
    let letter = matches true dotted s in
    let underscore = matches false dotted s in
    let dot = matches false true s in
    if is_lower (code c)
    then letter
    else (if not in_word
        then false
        else (if nat_beq (code c) b'_'
            then underscore
            else (if nat_beq (code c) b'.'
                then dot
                else nat_beq (code c) 10 && is_empty s && dotted)))

unfoldable pub valid_event_name : String → Bool
unfolding matches
valid_event_name name = matches false false name

-- An integer that is below 0 is `negative`.
pub data Version : Type 0 where
  natural : ℕ → Version
  negative : ℕ → Version

pub record EventInput (V T : Type 0) : Type 0 where
  pub trace_id : String
  pub source : String
  pub version : Version
  pub timestamp : T
  pub body : V

pub record EventPayload (V T : Type 0) : Type 0 where
  pub event_name : String
  pub trace_id : String
  pub source : String
  pub version : ℕ
  pub timestamp : T
  pub body : V

abbrev pub natural_of : Version → Result StateError ℕ
natural_of (natural n) = ok n
natural_of (negative n) = err (event_invalid negative_version)

module _ {V T : Type 0} where
  -- `(source or str(…).strip() or domain).strip()`
  abbrev pub source_of : String → Option String → EventInput V T → String
  source_of domain none e = strip (or_else (strip e.source) domain)
  source_of domain (some s) e = strip (or_else s (or_else (strip e.source) domain))

  -- The checks, in the order of the source, and the payload that they let through.
  unfoldable pub event_payload :
      String → String → EventInput V T → Option String → Result StateError (EventPayload V T)
  unfolding valid_event_name
  event_payload domain event_name e source = do
    guard (allowed_domain domain) (access_denied domain "")
    guard (valid_event_name event_name) (event_invalid bad_name)
    guard (not (is_empty (strip e.trace_id))) (event_invalid no_trace_id)
    guard (not (is_empty (source_of domain source e))) (event_invalid no_source)
    n ← natural_of e.version
    ok (record {
      event_name = event_name;
      trace_id = strip e.trace_id;
      source = source_of domain source e;
      version = n;
      timestamp = e.timestamp;
      body = e.body;
    })

-- The key is `f"event:{event_name}"`; `value_of` makes the dict that is stored.
abbrev pub event_key : String → String
event_key event_name = append "event:" event_name

module _ {V T C : Type 0} (env : Platform V T C) (value_of : EventPayload V T → V) where
  -- From the reading of the current version on.
  unfoldable pub publish :
      String → EventPayload V T → T → Manager V T C → Outcome V T C (EventPayload V T)
  publish domain p now m =
      let (r, m1) = get_record env domain (event_key p.event_name) none m in
      elim r [
        | err e ↦ (err e, m1)
        | ok current ↦
            let (w, m2) = set env domain (event_key p.event_name) (value_of p) now none none m1 in
            elim w [
              | err e ↦ (err e, m2)
              | ok stored ↦ (
                if leb stored.version (version_of current)
                    then err (version_conflict (version_of current + 1) stored.version)
                    else ok p,
                m2,
              )
            ]
      ]

  unfoldable pub publish_event :
      String
      → String
      → EventInput V T
      → T
      → Option String
      → Manager V T C
      → Outcome V T C (EventPayload V T)
  publish_event domain event_name e now source m = elim (event_payload domain event_name e source) [
    | err x ↦ (err x, m)
    | ok p ↦ publish domain p now m
  ]
