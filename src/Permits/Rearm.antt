-- ===== src/Permits/Rearm.antt =====
-- `explicit_rearm` of controller_permits.py: the one kind of step that lets the gateway reset the
-- controllers.
use haetae.Prelude.{◌&&◌, Bool, false, not, if◌then◌else◌}
use haetae.Python.{Result, ok, ◌>>=◌, fields_of}
use haetae.Python.Values.{Json, Fields, find, truthy, or_empty, is_str, is_null, is_stop_action}

-- The tests on the status.
abbrev pub is_rearmed : Fields → Bool
is_rearmed status =
    truthy (find "armed" status)
    && is_null (find "active" status)
    && is_str "normal" (find "mode" status)
    && not (truthy (find "arm_cancelling" status))

unfoldable pub explicit_rearm : Json → Result Bool
explicit_rearm step = do
  top ← fields_of step
  outcome ← fields_of (or_empty (find "outcome" top))
  decision ← fields_of (or_empty (find "decision" outcome))
  if not (is_stop_action (find "action" decision) && is_str "yun" (find "verdict" decision))
      then ok false
      else do status ← fields_of (or_empty (find "status" top)); ok (is_rearmed status)
