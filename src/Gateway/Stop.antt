-- ===== src/Gateway/Stop.antt =====
-- What the node does to stop: `_publish_command`, `_publish_zero`, `_cancel_arm`, `_abort` and
-- `_abort_tick` of node.py.
use haetae.Prelude.{
  ℕ, ◌*◌, ◌+◌, ◌/◌, ◌%◌, Bool, true, false, not, ◌&&◌, ◌||◌, Option, none, some, leb, if◌then◌else◌,
}
use haetae.Prelude.Int.{pos}
use haetae.Python.{Error, err, bridge_failure, is_stale_actuation}
use haetae.Python.Action.{pure, lift, gets, ◌>>=◌, ◌>>◌, modify, when, rescue}
use haetae.Python.Double.{is_zero}
use haetae.Python.Values.{int, str, obj, end, field}
use haetae.Permits.Digest.{Command, base_digest}
use haetae.Permits.Signer.{base, arm, Kind, get, idle}
use haetae.Gateway.{
  Config, Env, Gate, Method, commanded, token, cancel_goal, bridge_closed, exits, emit, now,
  monotonic, ask,
}
use haetae.Gateway.Permit.{permit, stop_permit}

abbrev pub is_none {ℓ} : {A : Type ℓ} → Option A → Bool
is_none none = true
is_none (some _) = false

-- A deadline that the reading has reached.
abbrev pub is_due : Option ℕ → ℕ → Bool
is_due none t = false
is_due (some d) t = leb d t

-- The command that is signed: `divmod(sim_ns, 1_000_000_000)` and the two velocities.
abbrev pub stamped : ℕ → ℕ → ℕ → Command
stamped sim_ns linear angular = record {
  stamp = record { sec = pos (sim_ns / 1000000000); nanosec = sim_ns % 1000000000 };
  twist = record {
    linear_x = linear;
    linear_y = 0;
    linear_z = 0;
    angular_x = 0;
    angular_y = 0;
    angular_z = angular;
  };
}

module _ (env : Env) (config : Config) where
  unfoldable pub stop_command : ℕ → ℕ → Method (Unit {0})
  unfolding stop_permit
  stop_command linear angular = do
    now_ms ← now env
    digest ← lift (base_digest env.sha256 (stamped (now_ms * 1000000) linear angular))
    frame ← stop_permit env base digest (now_ms * 1000000)
    emit (commanded linear angular (some (Kind.stop, frame)))

  -- The permit of a reset or a command, on the clock of the request.
  unfoldable pub sign_command : Bool → ℕ → ℕ → ℕ → Method (Unit {0})
  unfolding permit
  sign_command resets sim_ns linear angular = do
    digest ← lift (base_digest env.sha256 (stamped sim_ns linear angular))
    let kind = if resets then Kind.reset else Kind.command
    frame ← permit env base kind digest
    emit (commanded linear angular (some (kind, frame)))

  abbrev pub is_stopping : ℕ → ℕ → Gate → Bool
  is_stopping linear angular g =
      not g.permit_reset && (is_zero linear && is_zero angular) && g.permit_stop

  -- A signed command: a stop, a reset or a drive.
  unfoldable pub signed_command : ℕ → ℕ → Method (Unit {0})
  unfolding stop_command sign_command
  signed_command linear angular = do
    g ← gets (λ g. g)
    if is_stopping linear angular g
        then stop_command linear angular
        else sign_command g.permit_reset g.permit_sim_ns linear angular

  unfoldable pub publish_command : ℕ → ℕ → Method (Unit {0})
  unfolding signed_command
  publish_command linear angular =
      if not config.has_permits then emit (commanded linear angular none) else do
        absent ← gets (λ g. is_none (get base g.permits.challenges))
        if absent
            then (if not (is_zero linear && is_zero angular)
                then lift (err bridge_failure)
                else pure tt)
            else signed_command linear angular

  unfoldable pub publish_zero : Method (Unit {0})
  unfolding publish_command
  publish_zero = do
    when config.has_permits (modify (λ g. record g { permit_reset = false; permit_stop = true }))
    publish_command 0 0

  -- The signed stop, if the arm has a challenge; whether it was sent.
  unfoldable pub signed_stop : Method Bool
  unfolding stop_permit
  signed_stop = do
    g ← gets (λ g. g)
    if not config.has_permits || is_none (get arm g.permits.challenges) then pure false else do
      now_ms ← now env
      frame ← stop_permit env arm idle (now_ms * 1000000)
      emit (token Kind.stop frame)
      modify (λ g. record g { permits = record g.permits { active_arm = idle; goal_sequence = 0 } })
      pure true

  unfoldable pub set_cancel_deadline : Method (Unit {0})
  set_cancel_deadline = do
    t ← monotonic env
    modify (λ g. record g { cancel_deadline = some (t + 250000000) })

  unfoldable pub send_cancel : Method (Unit {0})
  send_cancel = do emit cancel_goal; modify (λ g. record g { cancel_future = true })

  -- The deadline is set once; an unsigned cancel is asked for once.
  unfoldable pub request_cancel : Bool → Method (Unit {0})
  request_cancel stopped = do
    modify (λ g. record g { cancel_requested = true })
    g ← gets (λ g. g)
    when (is_none g.cancel_deadline) set_cancel_deadline
    when (not stopped && g.has_goal && not g.cancel_future) send_cancel

  unfoldable pub cancel_arm : Method (Unit {0})
  unfolding signed_stop request_cancel
  cancel_arm = do
    stopped ← signed_stop
    g ← gets (λ g. g)
    if not g.has_goal && not g.goal_future then pure tt else request_cancel stopped

  -- The stale answer is rejected, and the rejection is sealed.
  unfoldable pub seal_rejection : Error → Method (Unit {0})
  seal_rejection e = do
    t ← now env
    _ ← ask env (
        obj (
          field "k" (str "reject")
            (field "t" (int (pos t)) (field "reason" (str (env.message e)) end))))
    t' ← now env
    _ ← ask env (obj (field "k" (str "tick") (field "t" (int (pos t')) end)))
    pure tt

  -- Behind the flag. `publish_zero` stands outside every `try`.
  unfoldable pub shut_down : Error → Method (Unit {0})
  unfolding publish_zero cancel_arm seal_rejection
  shut_down e = do
    publish_zero
    rescue cancel_arm (λ _. pure tt)
    when (is_stale_actuation e) (rescue (seal_rejection e) (λ _. pure tt))
    emit bridge_closed
    t ← monotonic env
    modify (λ g. record g { abort_deadline = some (t + 250000000) })

  unfoldable pub abort : Error → Method (Unit {0})
  unfolding shut_down
  abort e = do
    failed ← gets (λ g. g.failed)
    if failed then pure tt else do modify (λ g. record g { failed = true }); shut_down e

  -- `self.abort_deadline` is set where this timer runs.
  unfoldable pub abort_tick : Method (Unit {0})
  unfolding publish_zero
  abort_tick = do
    publish_zero
    t ← monotonic env
    due ← gets (λ g. is_due g.abort_deadline t)
    when due (emit exits)
