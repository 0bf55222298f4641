-- ===== src/Proposals.antt =====
-- ros/haetae_gate/proposals.py: what a policy may propose. A ROS message is the record of its
-- fields with floats as bit patterns; the frame id, which is a text in every message, is its code
-- points.
pub mod Accepted
pub mod Signable
pub mod Errors
pub mod Binding
pub mod Node
use haetae.Prelude.{
  ℕ, ◌+◌, ◌*◌, ◌/◌, ◌-◌, ◌^◌, String, Bool, true, false, not, ◌&&◌, ◌||◌, Option, none, some, List,
  [], ◌∷◌, length, all, codes, take, drop, ltb, leb, ◌==◌, bytes_eq, if◌then◌else◌,
}
use haetae.Prelude.Bytes.{is_hex}
use haetae.Prelude.Int.{ℤ, pos, negsuc}
use haetae.Python.{
  Error, Result, ok, err, type_error, index_error, invalid_proposal, is_value_error, ◌>>=◌, ◌>>◌,
  raise_if,
}
use haetae.Python.Values.{Json, Fields, int, str, obj, find, has_exactly}
use haetae.Python.Double.{is_finite, is_zero}
use haetae.Permits.Digest.{Stamp, Twist, Command, Point, Trajectory, same_names, is_empty}

-- A point of an accepted plan: its time in milliseconds and its positions.
pub record Waypoint : Type 0 where
  pub time_from_start_ms : ℕ
  pub positions : List ℕ

pub data Action : Type 0 where
  stop : Action
  velocity : ℕ → ℕ → ℕ → Action
  joint_trajectory : List Waypoint → ℕ → Action

-- The components that a base command leaves at zero.
abbrev pub unsupported : Twist → List ℕ
unsupported t = t.linear_y ∷ t.linear_z ∷ t.angular_x ∷ t.angular_y ∷ []

unfoldable pub base_action : Command → ℕ → Result Action
base_action msg ttl = do
  raise_if (not (all is_zero (unsupported msg.twist))) invalid_proposal
  raise_if (not (is_finite msg.twist.linear_x && is_finite msg.twist.angular_z)) invalid_proposal
  ok (
      if is_zero msg.twist.linear_x && is_zero msg.twist.angular_z
      then stop
      else velocity msg.twist.linear_x msg.twist.angular_z ttl)

-- `type(fixed_ttl_ms) is int and fixed_ttl_ms in (0, 1000)`
unfoldable pub fixed_lease : Json → Result ℕ
fixed_lease (int (pos n)) = if n == 0 || n == 1000 then ok n else err invalid_proposal
fixed_lease _ = err invalid_proposal

-- The time of a point, if it is no later than a second counts.
unfoldable pub millis : Stamp → Result ℕ
millis time = elim time.sec [
  | pos sec ↦
      if ltb time.nanosec 1000000000
      then ok (sec * 1000 + time.nanosec / 1000000)
      else err invalid_proposal
  | negsuc _ ↦ err invalid_proposal
]

-- One round of the loop.
unfoldable pub waypoint : List String → Point → Result Waypoint
unfolding millis
waypoint joints p = do
  raise_if (not (is_empty p.velocities && is_empty p.accelerations && is_empty p.effort))
      invalid_proposal
  raise_if (not (length p.positions == length joints) || not (all is_finite p.positions))
      invalid_proposal
  time ← millis p.time_from_start
  ok (record { time_from_start_ms = time; positions = p.positions })

unfoldable pub waypoints : List String → List Point → Result (List Waypoint)
unfolding waypoint
waypoints joints [] = ok []
waypoints joints (p ∷ rest) = do
  point ← waypoint joints p
  others ← waypoints joints rest
  ok (point ∷ others)

-- The time of the last point, behind a time of the points before.
abbrev pub last_time : ℕ → List Waypoint → ℕ
last_time time [] = time
last_time time (point ∷ rest) = last_time point.time_from_start_ms rest

-- `points[-1]["time_from_start_ms"]`: IndexError for an empty list.
abbrev pub duration_of : List Waypoint → Result ℕ
duration_of [] = err index_error
duration_of (point ∷ rest) = ok (last_time point.time_from_start_ms rest)

-- The plan behind the loop.
unfoldable pub planned : ℕ → List Waypoint → Result Action
planned fixed points = do
  duration ← duration_of points
  if not (fixed == 0) && ltb fixed duration
      then err invalid_proposal
      else ok (joint_trajectory points (if fixed == 0 then duration else fixed))

unfoldable pub arm_action : Trajectory → List String → Json → Result Action
unfolding fixed_lease waypoints planned same_names
arm_action msg joints fixed_ttl_ms = do
  fixed ← fixed_lease fixed_ttl_ms
  raise_if (not (same_names msg.joint_names joints)) invalid_proposal
  if is_empty msg.points
      then ok stop
      else do points ← waypoints joints msg.points; planned fixed points

-- `SEMANTIC_PREFIX`
abbrev pub semantic_prefix : List ℕ
semantic_prefix = codes "haetae.semantic.v1:"

abbrev pub revision_names : List String
revision_names = "schema_version" ∷ "world_revision" ∷ "task_revision" ∷ []

abbrev pub identity_names : List String
identity_names = "task_id" ∷ "step_id" ∷ "robot_id" ∷ "model_sha256" ∷ "tool_id" ∷ "item_id" ∷ []

-- `SEMANTIC_FIELDS`
abbrev pub semantic_fields : List String
semantic_fields =
    "schema_version" ∷ "world_revision" ∷ "task_revision" ∷ "task_id" ∷ "step_id" ∷ "robot_id"
    ∷ "model_sha256" ∷ "tool_id" ∷ "item_id" ∷ []

-- `type(value) is int and 0 < value <= 2**64 - 1`
abbrev pub is_revision : Json → Bool
is_revision (int (pos n)) = ltb 0 n && ltb n (2 ^ 64)
is_revision _ = false

-- An ASCII letter or digit, or one of `_.-`.
abbrev pub is_identity_char : ℕ → Bool
is_identity_char c =
    (leb b'0' c && leb c b'9')
    || (leb b'A' c && leb c b'Z')
    || (leb b'a' c && leb c b'z')
    || c == b'_'
    || c == b'.'
    || c == b'-'

abbrev pub is_identity : Json → Bool
is_identity (str text) =
    leb 1 (length (codes text)) && leb (length (codes text)) 64 && all is_identity_char (codes text)
is_identity _ = false

-- `value == 1`, of an int.
abbrev pub is_one : Json → Bool
is_one (int (pos n)) = n == 1
is_one _ = false

-- Of a text.
abbrev pub is_model_hash : Json → Bool
is_model_hash (str text) = length (codes text) == 64 && all is_hex (codes text)
is_model_hash _ = false

unfoldable pub is_binding : Fields → Bool
is_binding value =
    has_exactly semantic_fields value
    && all (λ key. is_revision (find key value)) revision_names
    && is_one (find "schema_version" value)
    && all (λ key. is_identity (find key value)) identity_names
    && is_model_hash (find "model_sha256" value)

-- `except (ValueError, TypeError)`
abbrev pub as_invalid : Error → Error
as_invalid type_error = invalid_proposal
as_invalid e = if is_value_error e then invalid_proposal else e

-- The tests on the decoded value.
abbrev pub checked_binding : Json → Result (Option Fields)
checked_binding (obj value) = if is_binding value then ok (some value) else err invalid_proposal
checked_binding _ = err invalid_proposal

-- `loads` is `json.loads` with the hook that refuses a repeated key.
unfoldable pub semantic_binding : (List ℕ → Result Json) → List ℕ → Result (Option Fields)
unfolding is_binding
semantic_binding loads frame_id =
    if not (bytes_eq (take (length semantic_prefix) frame_id) semantic_prefix)
    then ok none
    else if ltb 2048 (length frame_id)
    then err invalid_proposal
    else elim (loads (drop (length semantic_prefix) frame_id)) [
      | err e ↦ err (as_invalid e)
      | ok value ↦ checked_binding value
    ]
