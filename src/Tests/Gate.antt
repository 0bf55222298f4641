-- ===== src/Tests/Gate.antt =====
-- Runs of node.py at concrete events.
use haetae.Prelude.{
  ℕ, ◌≡◌, ◌+◌, ◌*◌, inl, refl, arith, subst, true, false, none, some, List, [], ◌∷◌,
}
use haetae.Prelude.Int.{ℤ, pos, ◌+ℤ◌, ◌-ℤ◌}
use haetae.Python.{at, contains, Result, ok, err, ok-injective}
use haetae.Python.Double.{is_zero}
use haetae.Python.Values.{Json, null, bool, int, float, str, obj, end, field, find?, find_or, has}
use haetae.Permits.Signer.{PermitSigner, Permit, base, Kind, sign, issue, body}
use haetae.Signing.{Signer}
use haetae.Gateway.{Config, Env, Gate, init, commanded, plain_beat, asked, state_published}
use haetae.Gateway.Permit.{permit, permit_positive}
use haetae.Gateway.Permit.Budget.{Budgeted, permit-Budgeted}
use haetae.Gateway.Inputs.{
  Event, tick, abort_timer, check_deadline, simple_request, plain_request, from_tick, dispatch,
  spin,
}
use haetae.Bridge.{require_fresh_actuation, actuating, lease_renewable}
use haetae.Python.Action.{rescue, ◌>>=◌}
use haetae.Gateway.Points.{cmd_field, double}
use haetae.Gateway.Stop.{publish_command}
use haetae.Gateway.Publish.{
  publish, set_modes, send_step, arm_renewal_retiring, drive, publish_status, controller_ready,
  publish_outcome,
}
use haetae.Gateway.Receive.{receive, exchange, open_request, judge, weigh, obey, heartbeat}
use haetae.Gateway.Trace.{Harmless, Adds}
use haetae.Gateway.Trace.Runs.{Justified, spin-Justified}
use haetae.Gateway.Trace.Deadlines.{failed-Harmless, tick-failed}

-- A quarter of a metre per second: 0x3fd0000000000000.
abbrev quarter : ℕ
quarter = 4598175219545276416

abbrev status : Json
status = obj (
    field "mode" (str "normal") (
      field "recorder_ok" (bool true) (
        field "state_ok" (bool true)
          (field "world_age_ms" (int (pos 20)) (field "active_expires_ms" (int (pos 1200)) end)))))

abbrev moving : Json
moving = obj (
    field "cmd" (obj (field "linear" (float quarter) (field "angular" (int (pos 0)) end)))
      (field "status" status end))

abbrev to_double : ℤ → Result ℕ
to_double n = ok 0

abbrev env : Env
env = record {
  ros_ns = λ n. 1000000000 + n * 1000000;
  mono_ns = λ n. 5000000000 + n * 1000000;
  answer = λ n request. ok moving;
  server_ready = λ n. true;
  publishers = λ n. 1;
  to_double = to_double;
  message = λ e. "";
  sha256 = λ bytes. bytes;
  sign_hex = λ bytes. bytes;
  key_sign = λ role bytes. bytes;
  envelope_text = λ envelope. "";
  proposal_text = λ proposal. [];
  loads = λ text. ok null;
}

abbrev config : Config
config = record {
  has_permits = false;
  has_heartbeat = true;
  has_signer = false;
  arm_joints = [];
  world_max_age_ms = pos 200;
  max_actuation_response_ms = pos 50;
}

abbrev permits : PermitSigner
permits = record {
  sim_backdate_ns = 0;
  challenges = record { for_base = none; for_arm = none };
  sequence = record { for_base = 0; for_arm = 0 };
  active_arm = [];
  admitted_arm = [];
  goal_sequence = 0;
  admitted_goal_sequence = 0;
  admitted_arm_holding = false;
  admitted_arm_expired = false;
}

abbrev signer : Signer
signer = record { audience = []; epoch = 1; has_key = λ role. false; counters = λ role. 0 }

abbrev gate : Gate
gate = init signer permits

abbrev events : List Event
events = tick (λ n. []) ∷ abort_timer ∷ []

zero_double : (bits : ℕ) → to_double (pos 0) ≡ ok bits → is_zero bits ≡ true
unfolding is_zero
zero_double bits h = subst (λ n. is_zero n ≡ true) (ok-injective h) refl

spin-Justified_example :
    Adds (Justified env config events gate) (λ _. Unit) gate (spin env config events gate)
spin-Justified_example = spin-Justified env config zero_double events gate

abbrev failed : Gate
failed = record gate { failed = true }

failed-Harmless_example : Adds Harmless (λ _. Unit) failed (spin env config events failed)
failed-Harmless_example = failed-Harmless env config events failed refl

abbrev waiting : Gate
waiting = record gate { goal_future = true; goal_deadline = some 4000000000 }

tick-failed_example : (dispatch env config (tick (λ n. [])) waiting).1.failed ≡ true
tick-failed_example =
    tick-failed env config (λ n. []) waiting 4000000000 (inl refl) (λ n h. omega arith)

-- A request at 1000 ms; the permit is signed_permit 10 ms later.
abbrev requested : Gate
requested = record gate {
  ticks = 10;
  permits = record permits { challenges = record { for_base = some []; for_arm = none } };
  permit_sim_ns = 1000000000;
  permit_wall_ns = 5000000000;
  permit_world_remaining_ns = 180000000;
}

abbrev signed_permit : Result (List ℕ) × Gate
signed_permit = permit env base Kind.command [] requested

abbrev value_or : Result (List ℕ) → List ℕ
value_or (ok token_text) = token_text
value_or (err e) = []

abbrev token_text : List ℕ
token_text = value_or signed_permit.0

signed_ok : permit env base Kind.command [] requested ≡ (ok token_text, signed_permit.1)
unfolding permit permit_positive sign issue body ◌-ℤ◌ ◌+ℤ◌ ◌>>=◌
signed_ok = refl

permit-Budgeted_example :
    (Kind.command ≡ Kind.stop → ⊥)
    × ((p : Permit) × Budgeted env Kind.command token_text requested 1010000000 5011000000 p)
permit-Budgeted_example =
    permit-Budgeted env base Kind.command [] token_text requested signed_permit.1 signed_ok

-- A tick of a gate without permits: the engine is asked, its velocity is sent, the lease is
-- renewed.
tick_sent :
    (dispatch env config (tick (λ n. [])) gate).1.trace
    ≡ plain_beat 1001
      ∷ state_published status 0 0 true
      ∷ commanded quarter 0 none
      ∷ asked (simple_request "tick" 1003)
      ∷ []
unfolding dispatch receive rescue exchange open_request from_tick check_deadline plain_request judge
    weigh obey require_fresh_actuation actuating lease_renewable publish set_modes send_step
    arm_renewal_retiring cmd_field drive double publish_command publish_status controller_ready
    publish_outcome heartbeat at contains has find? find_or is_zero ◌+ℤ◌ ◌>>=◌
tick_sent = refl
