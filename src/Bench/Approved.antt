-- ===== src/Bench/Approved.antt =====
-- What an approval of bench_gate.py stands on, and what `remaining` makes of it.
use haetae.Prelude.{ℕ, ◌+◌, ◌≡◌, true, some}
use haetae.Prelude.Int.{pos, ◌-ℤ◌}
use haetae.Python.{ok}
use haetae.Python.Values.{Json}
use haetae.Bridge.{require_fresh_actuation, lease_renewable}
use haetae.Bench.{BenchGate, Env}
use haetae.Bench.Answers.{is_positive}

-- The approval of a cycle that began at `b`: the step moves, and by the clocks that were read
-- behind its answer (entry `ended` of the tape, and the next one), its lease is renewable and it is
-- fresh.
pub record Approved (env : Env) (b after : BenchGate) : Type 0 where
  pub step : Json
  pub ended : ℕ
  pub kept : after.approval ≡ some (step, env.mono_ns b.ticks)
  pub positive : is_positive step ≡ ok true
  pub renewable :
      lease_renewable step (pos (env.mono_ns ended) -ℤ pos (env.mono_ns b.ticks)) (pos 200) (pos 50)
      ≡ ok true
  pub fresh :
      require_fresh_actuation step
        (pos (env.mono_ns ended) -ℤ pos (env.mono_ns b.ticks))
        (pos (env.now_ms (ended + 1)))
        (pos 200)
        (pos 50)
      ≡ ok tt
