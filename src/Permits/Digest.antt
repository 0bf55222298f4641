-- ===== src/Permits/Digest.antt =====
-- `stamp_ns`, `base_digest` and `arm_digest`: the bytes that the digest of an action is taken of.
-- SHA-256 is a parameter; a ROS time is an int32 of seconds and a uint32 of nanoseconds, a float
-- the 64 bits of its pattern.
pub mod Stamps
pub mod Base
pub mod Arm
use haetae.Prelude.{
  ℕ, suc, ◌+◌, ◌*◌, ◌≤◌, ◌<◌, String, Bool, true, false, not, ◌&&◌, ◌||◌, List, [], ◌∷◌, ◌++◌,
  length, all, ltb, leb, codes, if◌then◌else◌,
}
use haetae.Prelude.Bytes.{big_endian}
use haetae.Prelude.Int.{ℤ, pos, negsuc, ltb_ℤ}
use haetae.Python.{Result, ok, err, value_error, ◌>>=◌, ◌>>◌, raise_if}
use haetae.Python.Double.{is_finite, is_zero}
use text.Mathlib.Text.{◌==◌}

-- builtin_interfaces/Time and Duration.
pub record Stamp : Type 0 where
  pub sec : ℤ
  pub nanosec : ℕ

-- `not 0 <= stamp.sec < 2**31 or not 0 <= stamp.nanosec < 1_000_000_000`
abbrev pub nanoseconds : ℤ → ℕ → Result ℕ
nanoseconds (pos sec) nanosec =
    if ltb sec 2147483648 && ltb nanosec 1000000000
    then ok (sec * 1000000000 + nanosec)
    else err value_error
nanoseconds (negsuc _) nanosec = err value_error

unfoldable pub stamp_ns : Stamp → Result ℕ
stamp_ns stamp = nanoseconds stamp.sec stamp.nanosec

-- geometry_msgs/Twist: linear and angular velocity.
pub record Twist : Type 0 where
  pub linear_x : ℕ
  pub linear_y : ℕ
  pub linear_z : ℕ
  pub angular_x : ℕ
  pub angular_y : ℕ
  pub angular_z : ℕ

-- geometry_msgs/TwistStamped, without the frame that carries the permit.
pub record Command : Type 0 where
  pub stamp : Stamp
  pub twist : Twist

abbrev pub values : Twist → List ℕ
values t = t.linear_x ∷ t.linear_y ∷ t.linear_z ∷ t.angular_x ∷ t.angular_y ∷ t.angular_z ∷ []

-- The components at the indices 1 to 4.
abbrev pub unused : Twist → List ℕ
unused t = t.linear_y ∷ t.linear_z ∷ t.angular_x ∷ t.angular_y ∷ []

-- `struct.pack(">6d", ...)` and `struct.pack(">4d", ...)`
unfoldable pub pack_doubles : List ℕ → List ℕ
pack_doubles [] = []
pack_doubles (bits ∷ rest) = big_endian 8 bits ++ pack_doubles rest

unfoldable pub base_message : Command → Result (List ℕ)
base_message command = do
  raise_if (not (all is_finite (values command.twist)) || not (all is_zero (unused command.twist)))
      value_error
  stamp ← stamp_ns command.stamp
  ok (codes "base" ++ 0 ∷ big_endian 8 stamp ++ pack_doubles (values command.twist))

pub base_digest : (List ℕ → List ℕ) → Command → Result (List ℕ)
unfolding base_message
base_digest sha256 command = do message ← base_message command; ok (sha256 message)

-- trajectory_msgs/JointTrajectoryPoint.
pub record Point : Type 0 where
  pub positions : List ℕ
  pub velocities : List ℕ
  pub accelerations : List ℕ
  pub effort : List ℕ
  pub time_from_start : Stamp

-- trajectory_msgs/JointTrajectory.
pub record Trajectory : Type 0 where
  pub stamp : Stamp
  pub joint_names : List String
  pub points : List Point

abbrev pub joints : List String
joints = "joint1" ∷ "joint2" ∷ "joint3" ∷ "joint4" ∷ []

-- Equality of two lists of texts.
unfoldable pub same_names : List String → List String → Bool
same_names [] [] = true
same_names [] (_ ∷ _) = false
same_names (_ ∷ _) [] = false
same_names (x ∷ xs) (y ∷ ys) = x == y && same_names xs ys

-- Each name behind its length.
unfoldable pub pack_names : List String → List ℕ
pack_names [] = []
pack_names (name ∷ rest) = big_endian 4 (length (codes name)) ++ codes name ++ pack_names rest

abbrev pub is_empty {ℓ} : {A : Type ℓ} → List A → Bool
is_empty [] = true
is_empty (_ ∷ _) = false

-- The test of one point: four finite positions and nothing else, and a time behind the last.
unfoldable pub is_supported : ℤ → ℕ → Point → Bool
is_supported last duration point =
    leb (length point.positions) 4
    && leb 4 (length point.positions)
    && all is_finite point.positions
    && is_empty point.velocities
    && is_empty point.accelerations
    && is_empty point.effort
    && ltb_ℤ last (pos duration)
    && leb duration 1000000000

-- The loop over the points, from the time of the last one.
unfoldable pub pack_points : ℤ → List Point → Result (List ℕ)
pack_points last [] = ok []
pack_points last (point ∷ rest) = do
  duration ← stamp_ns point.time_from_start
  raise_if (not (is_supported last duration point)) value_error
  raw ← pack_points (pos duration) rest
  ok (big_endian 8 duration ++ pack_doubles point.positions ++ raw)

unfoldable pub arm_message : Trajectory → Result (List ℕ)
arm_message trajectory = do
  raise_if
      (not (same_names trajectory.joint_names joints)
        || not (leb 1 (length trajectory.points) && leb (length trajectory.points) 16))
      value_error
  stamp ← stamp_ns trajectory.stamp
  raw ← pack_points (negsuc 0) trajectory.points
  ok (
      codes "arm"
      ++ 0 ∷ big_endian 8 stamp
      ++ big_endian 4 (length trajectory.joint_names)
      ++ pack_names trajectory.joint_names
      ++ big_endian 4 (length trajectory.points)
      ++ raw)

pub arm_digest : (List ℕ → List ℕ) → Trajectory → Result (List ℕ)
unfolding arm_message
arm_digest sha256 trajectory = do message ← arm_message trajectory; ok (sha256 message)
