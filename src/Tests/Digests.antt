-- ===== src/Tests/Digests.antt =====
-- Digests of controller_permits.py at concrete commands and goals.
use haetae.Prelude.{ℕ, ◌≡◌, ◌≢◌, refl, arith, List, [], ◌∷◌}
use haetae.Prelude.Bytes.{big_endian}
use haetae.Prelude.Int.{pos}
use haetae.Python.{ok}
use haetae.Python.Double.{is_zero, is_finite}
use haetae.Permits.Digest.{
  Stamp, Command, Point, Trajectory, joints, stamp_ns, base_message, arm_message, pack_points,
  pack_doubles, pack_names, same_names, is_supported,
}
use haetae.Permits.Digest.Base.{base_message-injective}
use haetae.Permits.Digest.Arm.{arm_message-injective, base_message-ne-arm_message}

abbrev stamp : Stamp
stamp = record { sec = pos 5; nanosec = 7 }

abbrev pub half : ℕ
half = 4602678819172646912

abbrev pub drive : Command
drive = record {
  stamp = stamp;
  twist = record {
    linear_x = half;
    linear_y = 0;
    linear_z = 0;
    angular_x = 0;
    angular_y = 0;
    angular_z = 0;
  };
}

abbrev pub drive_bytes : List ℕ
drive_bytes =
    98 ∷ 97 ∷ 115 ∷ 101 ∷ 0 ∷ 0 ∷ 0 ∷ 0 ∷ 1 ∷ 42 ∷ 5 ∷ 242 ∷ 7 ∷ 63 ∷ 224 ∷ 0 ∷ 0 ∷ 0 ∷ 0 ∷ 0 ∷ 0
    ∷ 0 ∷ 0 ∷ 0 ∷ 0 ∷ 0 ∷ 0 ∷ 0 ∷ 0 ∷ 0 ∷ 0 ∷ 0 ∷ 0 ∷ 0 ∷ 0 ∷ 0 ∷ 0 ∷ 0 ∷ 0 ∷ 0 ∷ 0 ∷ 0 ∷ 0 ∷ 0 ∷ 0
    ∷ 0 ∷ 0 ∷ 0 ∷ 0 ∷ 0 ∷ 0 ∷ 0 ∷ 0 ∷ 0 ∷ 0 ∷ 0 ∷ 0 ∷ 0 ∷ 0 ∷ 0 ∷ 0 ∷ []

pub drive_message : base_message drive ≡ ok drive_bytes
unfolding base_message stamp_ns is_finite is_zero pack_doubles big_endian
drive_message = refl

base_message-injective_example : drive ≡ drive
base_message-injective_example =
    base_message-injective drive drive drive_bytes (omega arith) (omega arith) drive_message
      drive_message

abbrev point : Point
point = record {
  positions = half ∷ 0 ∷ 0 ∷ 0 ∷ [];
  velocities = [];
  accelerations = [];
  effort = [];
  time_from_start = record { sec = pos 0; nanosec = 100000000 };
}

abbrev pub reach : Trajectory
reach = record { stamp = stamp; joint_names = joints; points = point ∷ [] }

abbrev pub reach_bytes : List ℕ
reach_bytes =
    97 ∷ 114 ∷ 109 ∷ 0 ∷ 0 ∷ 0 ∷ 0 ∷ 1 ∷ 42 ∷ 5 ∷ 242 ∷ 7 ∷ 0 ∷ 0 ∷ 0 ∷ 4 ∷ 0 ∷ 0 ∷ 0 ∷ 6 ∷ 106
    ∷ 111 ∷ 105 ∷ 110 ∷ 116 ∷ 49 ∷ 0 ∷ 0 ∷ 0 ∷ 6 ∷ 106 ∷ 111 ∷ 105 ∷ 110 ∷ 116 ∷ 50 ∷ 0 ∷ 0 ∷ 0 ∷ 6
    ∷ 106 ∷ 111 ∷ 105 ∷ 110 ∷ 116 ∷ 51 ∷ 0 ∷ 0 ∷ 0 ∷ 6 ∷ 106 ∷ 111 ∷ 105 ∷ 110 ∷ 116 ∷ 52 ∷ 0 ∷ 0
    ∷ 0 ∷ 1 ∷ 0 ∷ 0 ∷ 0 ∷ 0 ∷ 5 ∷ 245 ∷ 225 ∷ 0 ∷ 63 ∷ 224 ∷ 0 ∷ 0 ∷ 0 ∷ 0 ∷ 0 ∷ 0 ∷ 0 ∷ 0 ∷ 0 ∷ 0
    ∷ 0 ∷ 0 ∷ 0 ∷ 0 ∷ 0 ∷ 0 ∷ 0 ∷ 0 ∷ 0 ∷ 0 ∷ 0 ∷ 0 ∷ 0 ∷ 0 ∷ 0 ∷ 0 ∷ 0 ∷ 0 ∷ 0 ∷ 0 ∷ []

pub reach_message : arm_message reach ≡ ok reach_bytes
unfolding arm_message stamp_ns is_finite pack_points pack_doubles pack_names same_names is_supported
    big_endian
reach_message = refl

arm_message-injective_example : reach ≡ reach
arm_message-injective_example =
    arm_message-injective reach reach reach_bytes (omega arith) (omega arith) reach_message
      reach_message

base_message-ne-arm_message_example : drive_bytes ≢ reach_bytes
base_message-ne-arm_message_example =
    base_message-ne-arm_message drive reach drive_bytes reach_bytes drive_message reach_message
