-- ===== src/Gateway/Points.antt =====
-- Numbers of an answer, and the trajectory that `_execute_arm` of node.py builds of its points.
use haetae.Prelude.{ℕ, ◌*◌, ◌-◌, ◌/◌, ◌%◌, ◌^◌, ltb, String, List, [], ◌∷◌, if◌then◌else◌}
use haetae.Prelude.Int.{ℤ, pos, negsuc}
use haetae.Python.{Result, ok, err, value_error, type_error, assertion_error, ◌>>=◌, at}
use haetae.Python.Values.{Json, Items, int, bool, float, str, arr, nil, cons}
use haetae.Permits.Digest.{Point, Stamp}

-- `int(value)` of a whole number; a float or a text, which the engine does not send, is refused
-- here.
abbrev pub whole : Json → Result ℤ
whole (int n) = ok n
whole (bool b) = ok (if b then pos 1 else pos 0)
whole _ = err type_error

-- `float(value)` of a number; a text that reads as a number is refused here.
unfoldable pub double : (ℤ → Result ℕ) → Json → Result ℕ
double to_double (float bits) = ok bits
double to_double (int n) = to_double n
double to_double (bool b) = to_double (if b then pos 1 else pos 0)
double to_double (str text) = err value_error
double to_double _ = err type_error

-- `divmod(millis, 1000)`, which rounds down, with the remainder in nanoseconds; the message refuses
-- seconds that do not fit its int32.
abbrev pub time_of : ℤ → Result Stamp
time_of (pos n) =
    if ltb (n / 1000) (2 ^ 31)
    then ok (record { sec = pos (n / 1000); nanosec = n % 1000 * 1000000 })
    else err assertion_error
time_of (negsuc n) =
    if ltb (n / 1000) (2 ^ 31)
    then ok (record { sec = negsuc (n / 1000); nanosec = (999 - n % 1000) * 1000000 })
    else err assertion_error

module _ (to_double : ℤ → Result ℕ) where
  unfoldable pub doubles : Items → Result (List ℕ)
  unfolding double
  doubles nil = ok []
  doubles (cons v rest) = do bits ← double to_double v; others ← doubles rest; ok (bits ∷ others)

  -- `[float(v) for v in value]`
  abbrev pub floats : Json → Result (List ℕ)
  floats (arr items) = doubles items
  floats _ = err type_error

  unfoldable pub point : Json → Result Point
  unfolding at doubles
  point value = do
    positions ← at "positions" value
    bits ← floats positions
    time ← at "time_from_start_ms" value
    millis ← whole time
    start ← time_of millis
    ok (record {
      positions = bits;
      velocities = [];
      accelerations = [];
      effort = [];
      time_from_start = start;
    })

  unfoldable pub points : Items → Result (List Point)
  unfolding point
  points nil = ok []
  points (cons value rest) = do p ← point value; others ← points rest; ok (p ∷ others)

  -- `for point in points`
  abbrev pub points_of : Json → Result (List Point)
  points_of (arr items) = points items
  points_of _ = err type_error

-- `step["cmd"][name]`
unfoldable pub cmd_field : String → Json → Result Json
unfolding at
cmd_field name step = do cmd ← at "cmd" step; at name cmd
