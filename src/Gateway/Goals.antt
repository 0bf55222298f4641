-- ===== src/Gateway/Goals.antt =====
-- Arm goals: `_execute_arm` and the callbacks of the action client of node.py. A future's
-- `result()` returns or raises.
use haetae.Prelude.{
  ℕ, ◌+◌, ◌/◌, ◌%◌, Bool, true, false, not, ◌&&◌, ◌||◌, Option, none, some, List, if◌then◌else◌,
}
use haetae.Prelude.Int.{pos}
use haetae.Python.{Result, bridge_failure}
use haetae.Python.Action.{pure, lift, gets, ◌>>=◌, ◌>>◌, modify, when, rescue, raise_unless}
use haetae.Python.Values.{Json}
use haetae.Permits.Digest.{Stamp, Trajectory, arm_digest, is_empty}
use haetae.Permits.Signer.{arm, Kind, get}
use haetae.Gateway.{Config, Env, Method, goal_sent, cancel_goal, emit, monotonic, reading}
use haetae.Gateway.Permit.{permit}
use haetae.Gateway.Stop.{cancel_arm, abort}
use haetae.Gateway.Points.{points_of}

-- `GoalStatus`, as far as the node tells the values apart.
pub data Status : Type 0 where
  succeeded canceled aborted other : Status

abbrev pub is_succeeded : Status → Bool
is_succeeded succeeded = true
is_succeeded _ = false

-- A status that a cancelled goal may end with.
abbrev pub ends_cancelled : Bool → Status → Bool
ends_cancelled has_permits canceled = true
ends_cancelled has_permits aborted = has_permits
ends_cancelled has_permits succeeded = has_permits
ends_cancelled has_permits other = false

module _ (env : Env) (config : Config) where
  -- The stamp that the goal starts with: none under permits, otherwise the clock's.
  abbrev pub goal_stamp : ℕ → Stamp
  goal_stamp ns =
      if config.has_permits
      then record { sec = pos 0; nanosec = 0 }
      else record { sec = pos (ns / 1000000000); nanosec = ns % 1000000000 }

  -- The digest is the active one before its permit is signed.
  unfoldable pub sign_goal : Trajectory → Method (Option (List ℕ))
  unfolding permit
  sign_goal trajectory = do
    digest ← lift (arm_digest env.sha256 trajectory)
    modify (λ g. record g { permits = record g.permits { active_arm = digest } })
    frame ← permit env arm Kind.goal digest
    modify (λ g. record g {
      permits = record g.permits { goal_sequence = get arm g.permits.sequence };
    })
    pure (some frame)

  unfoldable pub execute_arm : Json → Method (Unit {0})
  unfolding sign_goal
  execute_arm points = do
    busy ← gets (λ g. g.goal_future || g.has_goal)
    raise_unless (not busy) bridge_failure
    raise_unless (not (is_empty config.arm_joints)) bridge_failure
    ready ← reading env.server_ready
    raise_unless ready bridge_failure
    ns ← reading env.ros_ns
    ps ← lift (points_of env.to_double points)
    let trajectory : Trajectory = record {
      stamp = goal_stamp ns;
      joint_names = config.arm_joints;
      points = ps;
    }
    frame ← if config.has_permits then sign_goal trajectory else pure none
    modify (λ g. record g { cancel_requested = false })
    t ← monotonic env
    modify (λ g. record g { goal_deadline = some (t + 250000000) })
    emit (goal_sent trajectory frame)
    modify (λ g. record g { goal_future = true })

  -- A goal that is rejected after a signed stop was never admitted.
  unfoldable pub goal_rejected : Method (Unit {0})
  goal_rejected = do
    revoked ← gets (λ g. config.has_permits && g.cancel_requested)
    raise_unless revoked bridge_failure
    modify (λ g. record g { has_goal = false; cancel_deadline = none; cancel_requested = false })

  unfoldable pub goal_accepted : Method (Unit {0})
  unfolding cancel_arm
  goal_accepted = do
    modify (λ g. record g { result_future = true })
    requested ← gets (λ g. g.cancel_requested)
    when requested (cancel_arm env config)

  unfoldable pub take_goal : Bool → Method (Unit {0})
  unfolding goal_rejected goal_accepted
  take_goal accepted = do
    modify (λ g. record g { has_goal = true; goal_future = false; goal_deadline = none })
    failed ← gets (λ g. g.failed)
    if failed
        then when accepted (emit cancel_goal)
        else if accepted
        then goal_accepted
        else goal_rejected

  unfoldable pub on_arm_goal : Result Bool → Method (Unit {0})
  unfolding take_goal abort
  on_arm_goal future = rescue (lift future >>= take_goal) (abort env config)

  unfoldable pub take_result : Status → Method (Unit {0})
  take_result status = do
    requested ← gets (λ g. g.cancel_requested)
    raise_unless (not (requested && not (ends_cancelled config.has_permits status))) bridge_failure
    raise_unless (requested || is_succeeded status) bridge_failure
    modify (λ g. record g {
      has_goal = false;
      result_future = false;
      cancel_deadline = none;
      cancel_requested = false;
    })

  unfoldable pub on_arm_result : Result Status → Method (Unit {0})
  unfolding take_result abort
  on_arm_result future = rescue (lift future >>= take_result) (abort env config)

  -- Whether goals are cancelling.
  unfoldable pub take_cancel : Bool → Method (Unit {0})
  take_cancel cancelling = do
    modify (λ g. record g { cancel_future = false })
    refused ← gets (λ g. not cancelling && g.has_goal && not config.has_permits)
    raise_unless (not refused) bridge_failure

  unfoldable pub on_arm_cancel : Result Bool → Method (Unit {0})
  unfolding take_cancel abort
  on_arm_cancel future = rescue (lift future >>= take_cancel) (abort env config)
