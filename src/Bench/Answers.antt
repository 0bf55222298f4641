-- ===== src/Bench/Answers.antt =====
-- What `BenchGate.cycle` of bench_gate.py reads of an answer.
use haetae.Prelude.{Bool, true, not, ◌||◌, if◌then◌else◌}
use haetae.Python.{Result, ok, ◌>>=◌, fields_of, at}
use haetae.Python.Values.{Json, end, obj, find, find_or, truthy, is_null, is_str, eq_zero}

-- `step.get("stop") not in (...) or step.get("outcome", {}).get("rejected")`
unfoldable pub is_refused : Json → Result Bool
unfolding find_or
is_refused step = do
  top ← fields_of step
  let stop = find "stop" top
  if not (is_null stop || is_str "no_command" stop || is_str "startup" stop) then ok true else do
    outcome ← fields_of (find_or "outcome" (obj end) top)
    ok (truthy (find "rejected" outcome))

-- `step["cmd"]["linear"] != 0 or step["cmd"]["angular"] != 0`
unfoldable pub is_positive : Json → Result Bool
unfolding at
is_positive step = do
  cmd ← at "cmd" step
  linear ← at "linear" cmd
  if not (eq_zero linear)
      then ok true
      else do angular ← at "angular" cmd; ok (not (eq_zero angular))
