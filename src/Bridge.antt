-- ===== src/Bridge.antt =====
-- ros/haetae_gate/bridge.py: what the gateway accepts of the enforcement process. A step is the
-- JSON that the process answered. Clock readings are integers: `elapsed` in nanoseconds (the code
-- has a float of milliseconds), all others in the code's milliseconds.
pub mod Freshness
pub mod Request
pub mod Lease
pub mod Rejection
use haetae.Prelude.{String, Bool, true, false, not, ◌&&◌, ◌||◌, if◌then◌else◌}
use haetae.Prelude.Int.{ℤ, pos, ◌+ℤ◌, ltb_ℤ, leb_ℤ, ms}
use haetae.Python.{
  Result, ok, err, bridge_failure, stale_actuation, expired_actuation, ◌>>=◌, ◌>>◌, raise_if,
  fields_of, at,
}
use haetae.Python.Values.{
  Json, Fields, null, bool, int, str, obj, end, field, find, find_or, has, truthy, or_empty, is_str,
  is_true, is_null, eq_zero, is_empty_list,
}

-- The test of `reject_expired_actuation`: the answer still drives something or is still armed.
unfoldable pub rejection_refused : Json → Result Bool
unfolding find_or has at
rejection_refused step = do
  top ← fields_of step
  let arm = find "arm" top
  cmd ← at "cmd" step
  linear ← at "linear" cmd
  if not (eq_zero linear) then ok true else do
    angular ← at "angular" cmd
    if not (eq_zero angular) then ok true else do
      if not (is_null arm) && not (is_str "cancel" arm) then ok true else do
        status ← fields_of (find_or "status" (obj end) top)
        ok (
            not (is_empty_list (find "armed" status))
            || not (has "active" status)
            || not (is_null (find "active" status)))

unfoldable pub reject_expired_actuation : (Json → Result Json) → String → ℤ → Result Json
unfolding rejection_refused
reject_expired_actuation request reason now_ms = do
  step ←
      request
        (obj (field "k" (str "reject") (field "t" (int now_ms) (field "reason" (str reason) end))))
  refused ← rejection_refused step
  raise_if refused bridge_failure
  ok step

-- `type(age) is int and age >= 0 and 0 <= elapsed_ms < max_response_ms and ...`
abbrev pub is_timely : Json → ℤ → ℤ → ℤ → Bool
is_timely (int age) elapsed world_max_age_ms max_response_ms =
    leb_ℤ (pos 0) age
    && (leb_ℤ (pos 0) elapsed && ltb_ℤ elapsed (ms max_response_ms))
    && ltb_ℤ (ms age +ℤ elapsed) (ms world_max_age_ms)
is_timely _ elapsed world_max_age_ms max_response_ms = false

-- The conjunction that `lease_renewable` returns, over the fields of the status.
abbrev pub is_renewable : Fields → ℤ → ℤ → ℤ → Bool
is_renewable status elapsed world_max_age_ms max_response_ms =
    is_str "normal" (find "mode" status)
    && not (truthy (find_or "arm_cancelling" (bool false) status))
    && is_true (find "recorder_ok" status)
    && is_true (find "state_ok" status)
    && is_timely (find "world_age_ms" status) elapsed world_max_age_ms max_response_ms

unfoldable pub lease_renewable : Json → ℤ → ℤ → ℤ → Result Bool
lease_renewable step elapsed world_max_age_ms max_response_ms = do
  top ← fields_of step
  status ← fields_of (or_empty (find "status" top))
  ok (is_renewable status elapsed world_max_age_ms max_response_ms)

-- `isinstance(arm, dict) and "execute" in arm`
abbrev pub executes : Json → Bool
executes (obj arm) = has "execute" arm
executes _ = false

-- The value `actuating`: a nonzero velocity, or an arm plan to execute.
unfoldable pub actuating : Json → Result Bool
unfolding find_or has at
actuating step = do
  cmd ← at "cmd" step
  top ← fields_of step
  let arm = find "arm" top
  linear ← at "linear" cmd
  if not (eq_zero linear)
      then ok true
      else do angular ← at "angular" cmd; ok (not (eq_zero angular) || executes arm)

-- The tests on the clocks, in the code's order.
abbrev pub require_fresh_clocks : Json → Json → ℤ → ℤ → ℤ → ℤ → Result (Unit {0})
require_fresh_clocks (int expires) (int world_age) elapsed now_ms world_max_age_ms max_response_ms =
    if ltb_ℤ elapsed (pos 0)
    then err stale_actuation
    else if leb_ℤ (ms max_response_ms) elapsed
    then err stale_actuation
    else if leb_ℤ expires now_ms
    then err expired_actuation
    else if leb_ℤ (ms world_max_age_ms) (ms world_age +ℤ elapsed)
    then err expired_actuation
    else ok tt
require_fresh_clocks _ _ elapsed now_ms world_max_age_ms max_response_ms = err stale_actuation

unfoldable pub require_fresh_actuation : Json → ℤ → ℤ → ℤ → ℤ → Result (Unit {0})
require_fresh_actuation step elapsed now_ms world_max_age_ms max_response_ms = do
  moves ← actuating step
  if not moves then ok tt else do
    top ← fields_of step
    status ← fields_of (or_empty (find "status" top))
    require_fresh_clocks (find "active_expires_ms" status) (find "world_age_ms" status) elapsed
        now_ms world_max_age_ms max_response_ms
