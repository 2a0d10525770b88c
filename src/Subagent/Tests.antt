-- ===== src/Subagent/Tests.antt =====
-- A reviewer that reads a file and then approves, with numbers for the results of tools.
use offline_companion_core.Base.{
  ℕ, ◌≤◌, max, ◌≡◌, refl, true, false, none, some, [], ◌∷◌, nat_beq, if◌then◌else◌, get_or, nat_eq,
  string_eq, pair_eq,
}
use offline_companion_core.Base.Text.{strip}
use offline_companion_core.Base.Text.{cut_text}
use offline_companion_core.Subagent.Tools.{
  reviewer, Arguments, Run, Json, object, boolean, replied, Host, invoke, execute_tool_call,
  validate_file_access,
}
use offline_companion_core.Subagent.Loop.{
  Ended, spawn, extract_json, review_of, review_in, parse_reviewer_result, execute_each, conclude,
  take_up, run_loop, run,
}
use offline_companion_core.Subagent.Guarded.{AllPermitted, run-Guarded}
use offline_companion_core.Subagent.Budget.{Silent, run_bounded}
use offline_companion_core.Subagent.Reviews.{Grounded, run-Grounded}

abbrev read : Arguments
read = ("path", "a.py") ∷ []

abbrev approval : Json
approval = object (("approved", boolean true) ∷ [])

-- The first reply reads an allowed file and tries to write it.
abbrev host : Host ℕ
host = record {
  route = λ messages n.
      if nat_beq n 0
      then replied ""
          (record { id = "1"; name = "file_read"; arguments = some read }
            ∷ record { id = "2"; name = "file_write"; arguments = some read }
            ∷ [])
          false
      else replied "{}" [] false;
  resolve = λ path. some path;
  base = λ name a n. some 1;
  consents = λ a n. false;
  parse = λ text. some approval;
}

abbrev start : Run ℕ
start = record {
  context = spawn "sub_1" "s1" reviewer "review" ("a.py" ∷ []) "prompt" "local_only" 3 none none;
  has_registry = true;
  has_gateway = true;
  calls = [];
  asked = 0;
}

abbrev reviewed : Ended × Run ℕ
reviewed = get_or (run host start) (Ended.raised, start)

review_ends : run host start ≡ some (reviewed.0, reviewed.1)
unfolding run run_loop take_up execute_each execute_tool_call invoke validate_file_access conclude
    parse_reviewer_result review_of review_in extract_json spawn strip cut_text
review_ends = refl

-- The write has not reached the base registry.
one_call : reviewed.1.calls ≡ ("file_read", read) ∷ []
unfolding run run_loop take_up execute_each execute_tool_call invoke validate_file_access conclude
    parse_reviewer_result review_of review_in extract_json spawn strip cut_text
one_call = refl

run-Guarded_example :
    AllPermitted host start.context.role start.context.allowed_files true 0 0 reviewed.1.asked
      reviewed.1.calls
unfolding spawn
run-Guarded_example = run-Guarded host start reviewed.1 reviewed.0 refl review_ends

run_bounded_example :
    (e : Ended) × (s : Run ℕ) × (run host start ≡ some (e, s))
    × (s.context.llm_call_count ≤ max start.context.llm_call_count start.context.max_llm_calls)
    × Silent host e
run_bounded_example = run_bounded host start

run-Grounded_example : Grounded host reviewed.0 reviewed.1
run-Grounded_example = run-Grounded host start reviewed.1 reviewed.0 review_ends
