-- ===== src/Gateway/Inputs.antt =====
-- The callbacks of node.py that ROS calls: inputs, controller telemetry, the arm client and the
-- timers. Each runs to its end before the next.
use haetae.Prelude.{
  ℕ, ◌+◌, String, Bool, false, not, Option, none, some, List, [], ◌∷◌, leb, ltb, if◌then◌else◌,
}
use haetae.Prelude.Int.{pos}
use haetae.Python.{
  Error, Result, ok, err, bridge_failure, invalid_proposal, type_error, is_value_error,
}
use haetae.Python.Action.{pure, lift, gets, ◌>>=◌, ◌>>◌, modify, raise_unless}
use haetae.Python.Values.{Json, int, str, obj, end, field, find, is_str}
use haetae.Permits.Digest.{Command, Trajectory}
use haetae.Permits.Signer.{Target, observe}
use haetae.Proposals.{Action as Proposed, base_action, arm_action}
use haetae.Signing.{Role, world, fault, vla, planner, teleop, peer, sign, same_role}
use haetae.Gateway.{Config, Env, Gate, Method, reading, now, monotonic, ask}
use haetae.Gateway.Stop.{abort_tick}
use haetae.Gateway.Goals.{Status, on_arm_goal, on_arm_result, on_arm_cancel}
use haetae.Gateway.Receive.{receive}

abbrev pub role_text : Role → String
role_text world = "world"
role_text fault = "fault"
role_text vla = "vla"
role_text planner = "planner"
role_text teleop = "teleop"
role_text peer = "peer"

-- `envelope.get("role") == role`, of a dict.
abbrev pub has_role : Role → Json → Bool
has_role role (obj fields) = is_str (role_text role) (find "role" fields)
has_role role _ = false

-- `except (ValueError, TypeError)` of `_signed`.
abbrev pub as_malformed : Error → Error
as_malformed type_error = invalid_proposal
as_malformed e = if is_value_error e then invalid_proposal else e

abbrev pub parsed_envelope : Role → Result Json → Result (Unit {0})
parsed_envelope role (err e) = err (as_malformed e)
parsed_envelope role (ok envelope) = if has_role role envelope then ok tt else err invalid_proposal

-- A call of ROS.
pub data Event : Type 0 where
  world_message : List ℕ → Event
  fault_message : List ℕ → Event
  signed_message : Role → String → Event
  base_message : Role → ℕ → Command → Event
  arm_message : Role → Trajectory → Event
  tick : (ℕ → List ℕ) → Event
  guard_state : Target → Result Json → Event
  vla_matched : Option ℕ → Event
  arm_goal_done : Result Bool → Event
  arm_result_done : Result Status → Event
  arm_cancel_done : Result Bool → Event
  abort_timer : Event

abbrev pub count_vla : Role → Method (Unit {0})
count_vla vla = modify (λ g. record g { vla_callbacks = g.vla_callbacks + 1 })
count_vla _ = pure tt

-- A count that is no number is taken as none.
abbrev pub count_or_zero : Option ℕ → ℕ
count_or_zero none = 0
count_or_zero (some n) = n

-- An error that leaves a callback ends the executor.
abbrev pub next_event : (Gate → Gate) → Result (Unit {0}) × Gate → Gate
next_event rest (ok _, g) = rest g
next_event rest (err _, g) = g

abbrev pub simple_request : String → ℕ → Json
simple_request kind now_ms = obj (field "k" (str kind) (field "t" (int (pos now_ms)) end))

module _ (env : Env) (config : Config) where
  -- `bridge.request({"k": "signed", ...})`
  unfoldable pub ask_signed : String → Method Json
  ask_signed text = do
    now_ms ← now env
    ask env (
        obj (field "k" (str "signed") (field "t" (int (pos now_ms)) (field "data" (str text) end))))

  -- `_send`
  unfoldable pub send : Role → List ℕ → Method Json
  unfolding ask_signed sign
  send role payload = do
    g ← gets (λ g. g)
    (envelope, signer) ← lift (sign env.key_sign role payload g.signer)
    modify (λ g. record g { signer = signer })
    ask_signed (env.envelope_text envelope)

  unfoldable pub proposal : Role → Proposed → Method Json
  unfolding send
  proposal role action = do
    g ← gets (λ g. g)
    let id = g.seq role + 1
    modify (λ g. record g { seq = λ r. if same_role role r then id else g.seq r })
    now_ms ← now env
    send role (
        env.proposal_text
          (record { id = id; source = role; timestamp_ms = now_ms; action = action }))

  unfoldable pub from_base : Role → ℕ → Command → Method Json
  unfolding proposal base_action
  from_base role ttl msg = do action ← lift (base_action msg ttl); proposal role action

  unfoldable pub from_arm : Role → Trajectory → Method Json
  unfolding proposal arm_action
  from_arm role msg = do
    action ← lift (arm_action msg config.arm_joints (int (pos 0)))
    proposal role action

  unfoldable pub from_signed : Role → String → Method Json
  unfolding ask_signed
  from_signed role text = do lift (parsed_envelope role (env.loads text)); ask_signed text

  -- The clock is read only where the deadline is set.
  abbrev pub await_deadline : Option ℕ → Method (Unit {0})
  await_deadline none = pure tt
  await_deadline (some deadline) = do
    t ← monotonic env
    raise_unless (not (leb deadline t)) bridge_failure

  unfoldable pub check_deadline : (Gate → Option ℕ) → Method (Unit {0})
  check_deadline deadline = gets deadline >>= await_deadline

  unfoldable pub plain_request : String → Method Json
  plain_request kind = do now_ms ← now env; ask env (simple_request kind now_ms)

  unfoldable pub from_tick : (ℕ → List ℕ) → Method Json
  unfolding check_deadline send plain_request
  from_tick fault_text = do
    check_deadline (λ g. g.goal_deadline)
    check_deadline (λ g. g.cancel_deadline)
    publishers ← reading env.publishers
    if not (ltb 1 publishers)
        then plain_request "tick"
        else if not config.has_signer
        then plain_request "hold"
        else do now_ms ← now env; send fault (fault_text now_ms)

  -- The permits learn what a controller reports; without permits nothing listens.
  unfoldable pub hear : Target → Result Json → Method (Unit {0})
  unfolding observe
  hear target parsed = if not config.has_permits then pure tt else do
    value ← lift parsed
    g ← gets (λ g. g)
    let (result, permits) = observe target value g.permits
    modify (λ g. record g { permits = permits })
    lift result

  unfoldable pub dispatch : Event → Method (Unit {0})
  unfolding receive send from_base from_arm from_signed from_tick hear on_arm_goal on_arm_result
      on_arm_cancel abort_tick
  dispatch (world_message payload) = receive env config (send world payload)
  dispatch (fault_message payload) = receive env config (send fault payload)
  dispatch (signed_message role text) = do
    count_vla role
    receive env config (from_signed role text)
  dispatch (base_message role ttl msg) = receive env config (from_base role ttl msg)
  dispatch (arm_message role msg) = receive env config (from_arm role msg)
  dispatch (tick fault_text) = receive env config (from_tick fault_text)
  dispatch (guard_state target parsed) = hear target parsed
  dispatch (vla_matched count) = modify (λ g. record g { vla_writers = count_or_zero count })
  dispatch (arm_goal_done future) = on_arm_goal env config future
  dispatch (arm_result_done future) = on_arm_result env config future
  dispatch (arm_cancel_done future) = on_arm_cancel env config future
  dispatch abort_timer = abort_tick env config

  -- A run of the executor.
  unfoldable pub spin : List Event → Gate → Gate
  unfolding dispatch
  spin [] g = g
  spin (e ∷ rest) g = next_event (spin rest) (dispatch e g)
