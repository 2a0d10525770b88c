-- ===== src/StateManager/Tests.antt =====
-- The state manager over a table of one row, with texts for the values.
use offline_companion_core.Base.{
  false, ℕ, ◌+◌, String, ◌≡◌, refl, ◌≢◌, inr, none, some, List, [], ◌∷◌, arith, nat_beq,
  if◌then◌else◌, ◌==◌, nat_eq, string_eq, pair_eq, ok, err,
}
use offline_companion_core.Base.Text.{strip}
use offline_companion_core.Base.Dict.{lookup, Dict, Unique}
use offline_companion_core.StateManager.Types.{
  Key, StateRecord, Row, AuditRecord, Manager, access_denied, version_conflict, Platform,
}
use offline_companion_core.StateManager.Access.{validate}
use offline_companion_core.StateManager.Notify.{subscribe, unsubscribe, notify}
use offline_companion_core.StateManager.Store.{
  open_manager, get_record, get, check_version, set, set_if_version, delete, store, commit,
  drop_record, record_audit,
}
use offline_companion_core.StateManager.Retry.{set_with_retry}
use offline_companion_core.StateManager.Roles.{Denied-unchanged}
use offline_companion_core.StateManager.Coherence.{IsCoherent}
use offline_companion_core.StateManager.Versions.{
  Wrote, set-Wrote, set_if_version_decides, stored_version,
}
use offline_companion_core.StateManager.View.{
  Call, found, wrote, refused, deleted, table_view, view, run, specify,
}
use offline_companion_core.StateManager.Refinement.{run_refines}
use offline_companion_core.StateManager.Access.{actor_of}
use offline_companion_core.StateManager.Races.{set_if_version_race}
use offline_companion_core.StateManager.History.{
  open_manager-IsCoherent, here, next, sets, deletes, Reach-IsCoherent,
}

-- Values are texts; the text "bad" has no JSON.
abbrev texts : Platform String ℕ ℕ
texts = record {
  dumps = λ v. if v == "bad" then none else some v;
  loads = λ t. t;
  null = "null";
  is_null = λ v. v == "null";
  name_of = λ c. "callback";
  raises = λ c new old. none;
}

abbrev one_row : Dict Key (Row ℕ)
one_row = (("task", "t1"), record { value_json = "a"; updated_at = 1; version = 3 }) ∷ []

abbrev no_audit : List (AuditRecord ℕ)
no_audit = []

abbrev opened : Manager String ℕ ℕ
opened = open_manager texts one_row no_audit

one_row-Unique : Unique one_row
one_row-Unique = (refl, tt)

opened-IsCoherent : IsCoherent texts opened
opened-IsCoherent = open_manager-IsCoherent texts one_row no_audit one_row-Unique

task_validates : validate "task" "t1" none ≡ ok tt
unfolding validate strip
task_validates = refl

abbrev written : StateRecord String ℕ
written = record { domain = "task"; key = "t1"; value = "b"; updated_at = 2; version = 4 }

set_accepted : (set texts "task" "t1" "b" 2 none none opened).0 ≡ ok written
unfolding set validate strip open_manager store commit
set_accepted = refl

session_is_not_task : strip "session" ≢ "task"
unfolding strip
session_is_not_task h = ground (arith, string_eq.beq_iff "session" "task")

Denied-unchanged_example :
    (set texts "task" "t1" "b" 2 (some "session") none opened
      ≡ (err (access_denied "task" "t1"), opened))
    × (set_if_version texts "task" "t1" "b" 3 2 (some "session") none opened
        ≡ (err (access_denied "task" "t1"), opened))
    × (set_with_retry texts "task" "t1" "b" 3 2 (some "session") none opened
        ≡ (err (access_denied "task" "t1"), opened))
    × (delete texts "task" "t1" 2 (some "session") none opened
        ≡ (err (access_denied "task" "t1"), opened))
    × (get texts "task" "t1" "b" (some "session") opened
        ≡ (err (access_denied "task" "t1"), opened))
    × (get_record texts "task" "t1" (some "session") opened
        ≡ (err (access_denied "task" "t1"), opened))
    × (subscribe "task" "t1" 7 (some "session") opened ≡ (err (access_denied "task" "t1"), opened))
    × (unsubscribe "task" "t1" 7 (some "session") opened
        ≡ (err (access_denied "task" "t1"), opened))
Denied-unchanged_example =
    Denied-unchanged texts "task" "t1" (some "session") none "b" 2 3 7 opened
      (inr session_is_not_task)

set-Wrote_example :
    Wrote texts
      ("task", "t1")
      "b"
      2
      (actor_of none none "task")
      opened
      (set texts "task" "t1" "b" 2 none none opened).1
      written
set-Wrote_example =
    set-Wrote texts "task" "t1" "b" 2 none none opened written opened-IsCoherent set_accepted

stored_at_3 : stored_version ("task", "t1") opened ≡ 3
unfolding open_manager
stored_at_3 = refl

set_if_version_decides_example : set_if_version texts "task" "t1" "b" 2 2 none none opened ≡ (
    if nat_beq (stored_version ("task", "t1") opened) 2
    then set texts "task" "t1" "b" 2 none none opened
    else (err (version_conflict 2 (stored_version ("task", "t1") opened)), opened))
set_if_version_decides_example =
    set_if_version_decides texts "task" "t1" "b" 2 2 none none opened opened-IsCoherent
      task_validates

abbrev row_of_c : ℕ → Row ℕ
row_of_c n = record { value_json = "c"; updated_at = 3; version = n }

set_if_version_race_example :
    let k : Key = ("task", "t1") in
    let n = stored_version k opened in
    let first = check_version texts "task" "t1" n none opened in
    let second = check_version texts "task" "t1" n none first.1 in
    let old = lookup k second.1.cache in
    let one = commit texts old k "b" "b" 2 "x" second.1 in
    let two = commit texts old k "c" "c" 3 "y" one.1 in
    (first.0 ≡ ok tt)
    × (second.0 ≡ ok tt)
    × (one.0.version ≡ n + 1)
    × (two.0.version ≡ n + 1)
    × (lookup k two.1.rows ≡ some (row_of_c (n + 1)))
    × (lookup k two.1.cache ≡ some two.0)
set_if_version_race_example =
    set_if_version_race texts "task" "t1" "b" "c" "b" "c" 2 3 none "x" "y" false opened
      opened-IsCoherent task_validates

abbrev again : StateRecord String ℕ
again = record { domain = "task"; key = "t1"; value = "b"; updated_at = 3; version = 1 }

accepted_afterwards :
    (set texts "task" "t1" "b" 3 none none (delete texts "task" "t1" 2 none none opened).1).0
    ≡ ok again
unfolding set delete validate strip open_manager store commit drop_record record_audit notify
accepted_afterwards = refl

Reach-IsCoherent_example :
    IsCoherent texts
      (delete texts "task" "t1" 3 none none (set texts "task" "t1" "b" 2 none none opened).1).1
Reach-IsCoherent_example =
    Reach-IsCoherent texts one_row no_audit one_row-Unique
      (next (next here (sets "task" "t1" "b" 2 none none)) (deletes "task" "t1" 3 none none))

abbrev calls : List (Call String ℕ)
calls =
    Call.gets "task" "t1" "z" none
    ∷ Call.sets "task" "t1" "b" 2 none none
    ∷ Call.sets_if_version "task" "t1" "c" 3 3 none none
    ∷ Call.deletes "task" "t1" 4 none none
    ∷ Call.gets "task" "t1" "z" (some "session")
    ∷ Call.sets "task" "t1" "c" 5 none none
    ∷ []

run_refines_example :
    let m = opened in
    let f = table_view texts one_row in
    ((run texts calls m).0 ≡ (specify texts calls f).0)
    × ((k : Key) → view texts (run texts calls m).1 k ≡ (specify texts calls f).1 k)
run_refines_example = run_refines texts calls one_row no_audit one_row-Unique

-- The calls of the run above, by their answers.
answers :
    (specify texts calls (table_view texts one_row)).0
    ≡ found "a"
      ∷ wrote "b" 4
      ∷ refused (version_conflict 3 4)
      ∷ deleted
      ∷ refused (access_denied "task" "t1")
      ∷ wrote "c" 1
      ∷ []
unfolding specify validate strip
answers = refl
