-- ===== src/Tests/Bench.antt =====
-- A cycle of bench_gate.py that approves.
use haetae.Prelude.{ℕ, ◌+◌, ◌*◌, true, none, []}
use haetae.Prelude.Int.{pos}
use haetae.Python.{ok}
use haetae.Python.Action.{pure}
use haetae.Python.Values.{Json, bool, int, float, str, obj, end, field}
use haetae.Bench.{BenchGate, Env, Fault, no_fault, Method, incomplete, cycle}
use haetae.Bench.Approved.{Approved}

-- A quarter of a metre per second: 0x3fd0000000000000.
abbrev quarter_bits : ℕ
quarter_bits = 4598175219545276416

abbrev answer : Json
answer = obj (
    field "cmd" (obj (field "linear" (float quarter_bits) (field "angular" (int (pos 0)) end))) (
      field "status"
        (obj (
          field "mode" (str "normal") (
            field "recorder_ok" (bool true) (
              field "state_ok" (bool true) (
                field "world_age_ms" (int (pos 20))
                  (field "active_expires_ms" (int (pos 1200)) end))))))
        end))

abbrev tape : Env
tape = record {
  mono_ns = λ n. 5000000000 + n * 1000000;
  now_ms = λ n. 1000 + n;
  answer = λ n t envelope. ok answer;
  key_sign = λ role message. [];
  world_text = λ w. [];
  motion_text = λ m. [];
}

abbrev bench : BenchGate
bench = record {
  ticks = 0;
  signer = record { audience = []; epoch = 1; has_key = λ role. true; counters = λ role. 0 };
  proposal = 0;
  last_motion = none;
  approval = none;
  last_cycle = incomplete;
}

abbrev quiet : Fault → Method (Unit {0})
quiet fault = pure tt

abbrev cycled : BenchGate
cycled = (cycle tape quiet no_fault bench).1
