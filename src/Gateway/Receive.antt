-- ===== src/Gateway/Receive.antt =====
-- `_receive` and `_heartbeat` of node.py: one request to the engine, and what may follow its
-- answer.
use haetae.Prelude.{ℕ, ◌*◌, ◌-◌, String, Bool, not, ◌&&◌, ◌||◌, bytes_eq, ◌==◌, ltb, if◌then◌else◌}
use haetae.Prelude.Int.{ℤ, pos, negsuc, ◌-ℤ◌, ms, ltb_ℤ, min_ℤ, pos_part}
use haetae.Python.{Error, Result, ok, err, expired_actuation, invalid_proposal, fields_of}
use haetae.Python.Action.{pure, lift, gets, ◌>>=◌, ◌>>◌, modify, when, rescue, raise_unless}
use haetae.Python.Values.{Json, Fields, int, str, obj, end, field, find, is_null, truthy, or_empty}
use haetae.Bridge.{require_fresh_actuation, lease_renewable, reject_expired_actuation}
use haetae.Permits.Clock.{observe, remaining}
use haetae.Permits.Signer.{arm, Kind, get, idle, PermitSigner}
use haetae.Gateway.{Config, Env, Gate, Method, token, plain_beat, emit, now, monotonic, ask}
use haetae.Gateway.Permit.{permit}
use haetae.Gateway.Points.{whole}
use haetae.Gateway.Stop.{publish_zero, cancel_arm, abort, is_none}
use haetae.Gateway.Publish.{publish}

-- The controller has not admitted what the node would renew.
abbrev pub is_unadmitted : PermitSigner → Bool
is_unadmitted p =
    p.admitted_arm_holding
    || not (bytes_eq p.admitted_arm p.active_arm)
    || not (p.admitted_goal_sequence == p.goal_sequence)

-- `max((time.monotonic() - started) * 1000, now_ros_ms - started_ros_ms)` in nanoseconds, or -1
-- where the ROS clock went back. The monotonic clock does not go back.
abbrev pub elapsed_of : ℕ → ℕ → ℕ → ℕ → ℤ
elapsed_of started started_ros_ms now_ros_ms later =
    if ltb now_ros_ms started_ros_ms
    then negsuc 999999
    else let steady = later - started in
      let ros = (now_ros_ms - started_ros_ms) * 1000000 in
      pos (if ltb steady ros then ros else steady)

-- `status.get("world_age_ms") or 0`
abbrev pub age_or_zero : Json → Result ℤ
age_or_zero value = if truthy value then whole value else ok (pos 0)

-- `remaining_ms`
unfoldable pub remaining_ms : ℤ → ℕ → Fields → Result ℤ
remaining_ms max_age_ms started_ros_ms status = elim (age_or_zero (find "world_age_ms" status)) [
  | err e ↦ err e
  | ok age ↦
      let left = min_ℤ (pos 200) (max_age_ms -ℤ age) in
      if is_null (find "active_expires_ms" status)
      then ok left
      else elim (whole (find "active_expires_ms" status)) [
        | err e ↦ err e
        | ok expires ↦ ok (min_ℤ left (expires -ℤ pos started_ros_ms))
      ]
]

abbrev pub reject_request : String → ℕ → Json
reject_request reason now_ms =
    obj (field "k" (str "reject") (field "t" (int (pos now_ms)) (field "reason" (str reason) end)))

module _ (env : Env) (config : Config) where
  abbrev pub max_age_ns : ℕ
  max_age_ns = pos_part (ms config.world_max_age_ms)

  -- A reset makes the idle digest the active one.
  unfoldable pub renew_as : Bool → Method (Unit {0})
  unfolding permit
  renew_as resets = do
    active ← gets (λ g. g.permits.active_arm)
    let kind = if resets then Kind.reset else Kind.lease
    frame ← permit env arm kind (if resets then idle else active)
    when resets (
        modify
          (λ g. record g { permits = record g.permits { active_arm = idle; goal_sequence = 0 } }))
    emit (token kind frame)

  unfoldable pub heartbeat : ℕ → Method (Unit {0})
  unfolding renew_as
  heartbeat started_ros_ms = if not config.has_permits then emit (plain_beat started_ros_ms) else do
    g ← gets (λ g. g)
    if is_none (get arm g.permits.challenges)
          || (g.permit_stop && not g.permit_reset)
          || (not g.permit_reset && is_unadmitted g.permits)
        then pure tt
        else renew_as g.permit_reset

  -- The authority that the answer leaves, by both clocks and the proposal's own expiry.
  unfoldable pub set_authority : Json → ℕ → Method (Unit {0})
  unfolding observe remaining remaining_ms
  set_authority step started_ros_ms = do
    g ← gets (λ g. g)
    world ← lift (observe g.permit_world step g.permit_wall_ns)
    modify (λ g. record g { permit_world = world })
    top ← lift (fields_of step)
    status ← lift (fields_of (or_empty (find "status" top)))
    left_ms ← lift (remaining_ms config.world_max_age_ms started_ros_ms status)
    let by_world = remaining world g.permit_sim_ns g.permit_wall_ns max_age_ns
    modify (λ g. record g { permit_world_remaining_ns = by_world })
    let left = min_ℤ (ms left_ms) (pos by_world)
    raise_unless (ltb_ℤ (pos 0) left) expired_actuation
    modify (λ g. record g { permit_remaining_ns = left })

  -- The tests before the heartbeat that need no answer.
  abbrev pub may_beat : Bool → Gate → Bool
  may_beat retiring g =
      config.has_heartbeat
      && not g.cancel_requested
      && not g.failed
      && not retiring
      && (not config.has_permits || not g.goal_future)

  -- What follows an answer that was fresh.
  unfoldable pub obey : Json → ℕ → ℤ → Method (Unit {0})
  unfolding set_authority publish heartbeat lease_renewable
  obey step started_ros_ms elapsed = do
    when config.has_permits (set_authority step started_ros_ms)
    retiring ← publish env config step
    may ← gets (may_beat retiring)
    if not may then pure tt else do
      renewable ←
          lift
            (lease_renewable step elapsed config.world_max_age_ms config.max_actuation_response_ms)
      when renewable (heartbeat started_ros_ms)

  -- The check behind the answer and behind the clocks.
  unfoldable pub weigh : ℕ → ℤ → ℕ → Json → Method (Unit {0})
  unfolding obey require_fresh_actuation
  weigh started_ros_ms elapsed now_ros_ms step = do
    lift (
        require_fresh_actuation step elapsed (pos now_ros_ms) config.world_max_age_ms
          config.max_actuation_response_ms)
    obey step started_ros_ms elapsed

  -- `started` and `started_ros_ms` were read before the request.
  unfoldable pub judge : ℕ → ℕ → Json → Method (Unit {0})
  unfolding weigh
  judge started started_ros_ms step = do
    now_ros_ms ← now env
    later ← if ltb now_ros_ms started_ros_ms then pure started else monotonic env
    weigh started_ros_ms (elapsed_of started started_ros_ms now_ros_ms later) now_ros_ms step

  -- The clocks of the request's permits.
  unfoldable pub open_request : ℕ → Method (Unit {0})
  open_request started_ros_ms = do
    wall_ns ← monotonic env
    modify (λ g. record g { permit_sim_ns = started_ros_ms * 1000000; permit_wall_ns = wall_ns })

  -- The body of the `try`.
  unfoldable pub exchange : Method Json → Method (Unit {0})
  unfolding open_request judge
  exchange callback = do
    started ← monotonic env
    started_ros_ms ← now env
    when config.has_permits (open_request started_ros_ms)
    step ← callback
    judge started started_ros_ms step

  -- `_publish(reject_expired_actuation(...))`: the answer must drive nothing.
  unfoldable pub reject_expired : Error → Method (Unit {0})
  unfolding reject_expired_actuation publish cancel_arm
  reject_expired e = do
    cancel_arm env config
    now_ms ← now env
    step ← ask env (reject_request (env.message e) now_ms)
    accepted ← lift (reject_expired_actuation (λ _. ok step) (env.message e) (pos now_ms))
    _ ← publish env config accepted
    pure tt

  unfoldable pub lose_authority : Error → Method (Unit {0})
  unfolding publish_zero reject_expired abort
  lose_authority e = do publish_zero env config; rescue (reject_expired e) (abort env config)

  unfoldable pub report_malformed : Error → Method (Unit {0})
  unfolding publish
  report_malformed e = do
    now_ms ← now env
    step ← ask env (reject_request (env.message e) now_ms)
    _ ← publish env config step
    pure tt

  -- The three `except` clauses.
  abbrev pub recover : Error → Method (Unit {0})
  recover expired_actuation = lose_authority expired_actuation
  recover invalid_proposal = rescue (report_malformed invalid_proposal) (abort env config)
  recover e = abort env config e

  unfoldable pub receive : Method Json → Method (Unit {0})
  unfolding exchange lose_authority report_malformed abort
  receive callback = do
    failed ← gets (λ g. g.failed)
    if failed then pure tt else rescue (exchange callback) recover
