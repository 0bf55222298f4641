-- ===== src/Gateway.antt =====
-- `HaetaeGate` of ros/haetae_gate/node.py: the ROS node between the enforcement process and the
-- controllers. Its callbacks run one at a time. What it reads (the clocks, the pipe, the ROS graph)
-- comes from a tape: the n-th reading of a run is the tape's entry n.
pub mod Permit
pub mod Stop
pub mod Points
pub mod Goals
pub mod Publish
pub mod Receive
pub mod Inputs
pub mod Trace
use haetae.Prelude.{
  ℕ, ◌+◌, ◌/◌, ◌%◌, ◌*◌, String, Bool, true, false, Option, none, some, List, [], ◌∷◌,
}
use haetae.Prelude.Int.{ℤ, pos}
use haetae.Python.{Error, Result, ok}
use haetae.Python.Action.{Action, ◌>>=◌, ◌>>◌}
use haetae.Python.Values.{Json, Fields}
use haetae.Permits.Clock.{AcceptedWorldClock}
use haetae.Permits.Digest.{Stamp, Trajectory}
use haetae.Permits.Signer.{PermitSigner, Kind}
use haetae.Signing.{Role, Signer, Envelope}
use haetae.Proposals.{Action as Proposed}

-- The parameters, after the checks of `__init__`.
pub record Config : Type 0 where
  pub has_permits : Bool
  pub has_heartbeat : Bool
  pub has_signer : Bool
  pub arm_joints : List String
  pub world_max_age_ms : ℤ
  pub max_actuation_response_ms : ℤ

-- A payload of `_proposal`.
pub record Proposal : Type 0 where
  pub id : ℕ
  pub source : Role
  pub timestamp_ms : ℕ
  pub action : Proposed

-- The world around the node: clocks in nanoseconds, the answers of `Bridge.request`, the server and
-- the publishers that ROS reports, the conversion of an int to a float, the texts of exceptions and
-- of `json.dumps`, SHA-256 as text and the two signatures.
pub record Env : Type 0 where
  pub ros_ns : ℕ → ℕ
  pub mono_ns : ℕ → ℕ
  pub answer : ℕ → Json → Result Json
  pub server_ready : ℕ → Bool
  pub publishers : ℕ → ℕ
  pub to_double : ℤ → Result ℕ
  pub message : Error → String
  pub sha256 : List ℕ → List ℕ
  pub sign_hex : List ℕ → List ℕ
  pub key_sign : Role → List ℕ → List ℕ
  pub envelope_text : Envelope → String
  pub proposal_text : Proposal → List ℕ
  pub loads : String → Result Json

-- What leaves the node.
pub data Output : Type 0 where
  -- a velocity, with the kind of its permit and the permit
  commanded : ℕ → ℕ → Option (Kind × List ℕ) → Output
  -- a token for the arm controller, or the plain clock
  token : Kind → List ℕ → Output
  plain_beat : ℕ → Output
  goal_sent : Trajectory → Option (List ℕ) → Output
  cancel_goal : Output
  state_published : Json → ℕ → ℕ → Bool → Output
  outcome_published : Json → Output
  decision_published : Json → Output
  asked : Json → Output
  bridge_closed : Output
  exits : Output

pub record Gate : Type 0 where
  pub ticks : ℕ
  pub trace : List Output
  pub signer : Signer
  pub seq : Role → ℕ
  pub permits : PermitSigner
  pub permit_world : AcceptedWorldClock
  pub permit_reset : Bool
  pub permit_stop : Bool
  pub permit_remaining_ns : ℤ
  pub permit_world_remaining_ns : ℕ
  pub permit_sim_ns : ℕ
  pub permit_wall_ns : ℕ
  pub has_goal : Bool
  pub goal_future : Bool
  pub goal_deadline : Option ℕ
  pub result_future : Bool
  pub cancel_future : Bool
  pub cancel_deadline : Option ℕ
  pub cancel_requested : Bool
  pub failed : Bool
  pub abort_deadline : Option ℕ
  pub vla_writers : ℕ
  pub vla_callbacks : ℕ

-- The object that `__init__` leaves, with the signers that it made.
abbrev pub init : Signer → PermitSigner → Gate
init signer permits = record {
  ticks = 0;
  trace = [];
  signer = signer;
  seq = λ _. 0;
  permits = permits;
  permit_world = record { stamp_ns = none; wall_ns = none };
  permit_reset = false;
  permit_stop = true;
  permit_remaining_ns = pos 200000000;
  permit_world_remaining_ns = 0;
  permit_sim_ns = 0;
  permit_wall_ns = 0;
  has_goal = false;
  goal_future = false;
  goal_deadline = none;
  result_future = false;
  cancel_future = false;
  cancel_deadline = none;
  cancel_requested = false;
  failed = false;
  abort_deadline = none;
  vla_writers = 0;
  vla_callbacks = 0;
}

abbrev pub Method : Type 0 → Type 0
Method = Action Gate

-- One reading of the tape.
abbrev pub reading : {A : Type 0} → (ℕ → A) → Method A
reading tape g = (ok (tape g.ticks), record g { ticks = g.ticks + 1 })

abbrev pub emit : Output → Method (Unit {0})
emit o g = (ok tt, record g { trace = o ∷ g.trace })

module _ (env : Env) where
  -- `_now`
  abbrev pub now : Method ℕ
  now = reading (λ n. env.ros_ns n / 1000000)

  -- `time.monotonic_ns()`, and `time.monotonic()` in nanoseconds.
  abbrev pub monotonic : Method ℕ
  monotonic = reading env.mono_ns

  abbrev pub ask : Json → Method Json
  ask request g = (
    env.answer g.ticks request,
    record g { ticks = g.ticks + 1; trace = asked request ∷ g.trace },
  )
