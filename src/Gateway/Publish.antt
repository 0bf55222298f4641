-- ===== src/Gateway/Publish.antt =====
-- `_publish` and `_arm_renewal_retiring` of node.py: what one answer of the engine makes the node
-- send.
use haetae.Prelude.{ℕ, Bool, true, false, not, ◌&&◌, ◌||◌, bytes_eq, ◌==◌, if◌then◌else◌}
use haetae.Prelude.Int.{ℤ, pos, ◌-ℤ◌, ms, ltb_ℤ, leb_ℤ}
use haetae.Python.{Result, ok, err, bridge_failure, fields_of, at, contains}
use haetae.Python.Action.{pure, lift, gets, ◌>>=◌, ◌>>◌, modify, when}
use haetae.Python.Values.{
  Json, Fields, int, str, obj, end, find, find_or, has, truthy, or_empty, is_str, is_null, eq_zero,
}
use haetae.Permits.Rearm.{explicit_rearm}
use haetae.Permits.Digest.{is_empty}
use haetae.Permits.Signer.{base, arm, get, idle}
use haetae.Gateway.{
  Config, Env, Gate, Method, state_published, outcome_published, decision_published, emit, now,
  monotonic, reading,
}
use haetae.Gateway.Permit.{Ages, ages_at}
use haetae.Gateway.Stop.{publish_command, cancel_arm, is_none}
use haetae.Gateway.Points.{double, cmd_field}
use haetae.Gateway.Goals.{execute_arm}

-- `(status.get("active") or {}).get("action", {}).get("type") != "joint_trajectory"`
unfoldable pub active_plan : Fields → Result Bool
unfolding find_or
active_plan status = elim (fields_of (or_empty (find "active" status))) [
  | err e ↦ err e
  | ok active ↦ elim (fields_of (find_or "action" (obj end) active)) [
    | err e ↦ err e
    | ok action ↦ ok (is_str "joint_trajectory" (find "type" action))
  ]
]

-- The controller has admitted the goal that the node signed last, and works on it.
abbrev pub is_admitted : Gate → Bool
is_admitted g =
    not (bytes_eq g.permits.active_arm idle)
    && not (g.permits.admitted_arm_holding && not g.permits.admitted_arm_expired)
    && bytes_eq g.permits.admitted_arm g.permits.active_arm
    && g.permits.admitted_goal_sequence == g.permits.goal_sequence

-- The last conjunction of `_arm_renewal_retiring`: the proposal bounds the authority, it is about
-- to end, and nothing else is.
abbrev pub is_last_window : ℤ → ℕ → ℤ → Ages → Gate → Bool
is_last_window expires world_age max_age_ms a g =
    let left = ms expires -ℤ pos g.permit_sim_ns in
    leb_ℤ (pos 0) a.sim_age
    && leb_ℤ (pos 0) a.wall_age
    && ltb_ℤ a.age (pos 50000000)
    && ltb_ℤ (pos 50000000) (pos g.permit_world_remaining_ns -ℤ a.age)
    && ltb_ℤ (pos 50000000) (ms (max_age_ms -ℤ pos world_age) -ℤ a.age)
    && ltb_ℤ (pos 0) left
    && (leb_ℤ g.permit_remaining_ns left && leb_ℤ left g.permit_remaining_ns)
    && leb_ℤ (left -ℤ a.age) (pos 50000000)

module _ (env : Env) (config : Config) where
  -- Behind the type tests on the two numbers of the status.
  unfoldable pub in_last_window : Json → Json → Method Bool
  in_last_window (int expires) (int (pos world_age)) = do
    now_ms ← now env
    wall_ns ← monotonic env
    gets
        (λ g. is_last_window expires world_age config.world_max_age_ms (ages_at now_ms wall_ns g) g)
  in_last_window _ _ = pure false

  -- The tests that need no dict.
  abbrev pub may_retire : Json → Gate → Bool
  may_retire arm_output g =
      config.has_permits
      && not g.permit_reset
      && not g.permit_stop
      && is_null arm_output
      && not g.goal_future

  unfoldable pub retire_on : Fields → Method Bool
  unfolding in_last_window active_plan
  retire_on status = do
    plan ← lift (active_plan status)
    admitted ← gets is_admitted
    if not plan || not admitted
        then pure false
        else in_last_window (find "active_expires_ms" status) (find "world_age_ms" status)

  unfoldable pub arm_renewal_retiring : Json → Method Bool
  unfolding retire_on cmd_field
  arm_renewal_retiring step = do
    top ← lift (fields_of step)
    may ← gets (may_retire (find "arm" top))
    if not may then pure false else do
      linear ← lift (cmd_field "linear" step)
      if not (eq_zero linear) then pure false else do
        angular ← lift (cmd_field "angular" step)
        if not (eq_zero angular)
            then pure false
            else do status ← lift (fields_of (or_empty (find "status" top))); retire_on status

  -- Whether the engine is disarmed.
  unfoldable pub set_stop : Json → Method (Unit {0})
  set_stop step = do
    top ← lift (fields_of step)
    status ← lift (fields_of (or_empty (find "status" top)))
    let mode = find "mode" status
    modify (λ g. record g {
      permit_stop =
          not (truthy (find "armed" status)) || not (is_str "normal" mode || is_str "caution" mode);
    })

  unfoldable pub set_modes : Json → Method (Unit {0})
  unfolding explicit_rearm set_stop
  set_modes step = do
    rearmed ← lift (explicit_rearm step)
    modify (λ g. record g { permit_reset = rearmed })
    set_stop step

  -- `_publish_command(float(...), float(...))`
  unfoldable pub drive : Json → Method (Unit {0})
  unfolding cmd_field double publish_command
  drive step = do
    linear ← lift (cmd_field "linear" step)
    l ← lift (double env.to_double linear)
    angular ← lift (cmd_field "angular" step)
    a ← lift (double env.to_double angular)
    publish_command env config l a

  -- The arm's part of an answer.
  unfoldable pub obey_arm : Json → Method (Unit {0})
  unfolding has at execute_arm cancel_arm
  obey_arm (obj fields) = do
    if not (has "execute" fields) then lift (err bridge_failure) else do
      plan ← lift (at "execute" (obj fields))
      points ← lift (at "points" plan)
      execute_arm env config points
  obey_arm (str text) =
      if is_str "cancel" (str text) then cancel_arm env config else lift (err bridge_failure)
  obey_arm _ = lift (err bridge_failure)

  -- `arm_controller_ready`
  unfoldable pub controller_ready : Method Bool
  controller_ready = do
    g ← gets (λ g. g)
    if is_empty config.arm_joints
        then pure true
        else if config.has_permits
            && (is_none (get base g.permits.challenges) || is_none (get arm g.permits.challenges))
        then pure false
        else reading env.server_ready

  unfoldable pub publish_status : Json → Method (Unit {0})
  unfolding controller_ready
  publish_status status = if is_null status then pure tt else do
    ready ← controller_ready
    g ← gets (λ g. g)
    _ ← lift (fields_of status)
    emit (state_published status g.vla_writers g.vla_callbacks ready)

  unfoldable pub publish_outcome : Json → Method (Unit {0})
  unfolding at contains
  publish_outcome outcome = if is_null outcome then pure tt else do
    emit (outcome_published outcome)
    decided ← lift (contains "decision" outcome)
    if not decided
        then pure tt
        else do decision ← lift (at "decision" outcome); emit (decision_published decision)

  -- `_publish` behind the flags.
  unfoldable pub send_step : Json → Method Bool
  unfolding arm_renewal_retiring drive obey_arm publish_status publish_outcome
  send_step step = do
    retiring ← arm_renewal_retiring step
    when (not retiring) (drive step)
    top ← lift (fields_of step)
    when (truthy (find "arm" top)) (obey_arm (find "arm" top))
    publish_status (find "status" top)
    publish_outcome (find "outcome" top)
    pure retiring

  unfoldable pub publish : Json → Method Bool
  unfolding set_modes send_step
  publish step = do when config.has_permits (set_modes step); send_step step
