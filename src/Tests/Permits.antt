-- ===== src/Tests/Permits.antt =====
-- Permits of controller_permits.py at concrete commands, goals and runs.
use haetae.Prelude.{◌-◌, ◌≤◌, ◌≡◌, refl, arith, some}
use Prim.Native.Nat.{min}
use haetae.Prelude.Int.{pos}
use haetae.Python.{ok}
use haetae.Python.Values.{Json, int, obj, end, field, find?, find_or}
use haetae.Permits.Clock.Observed.{Observes, stamp_of, observe-Observes}
use haetae.Permits.Clock.{
  AcceptedWorldClock, observe, remaining, WithinAge, remaining-WithinAge, remaining_runs_down,
}

abbrev clock : AcceptedWorldClock
clock = record { stamp_ns = some 1000000000; wall_ns = some 5000000000 }

remaining_value : remaining clock 1050000000 5020000000 200000000 ≡ 150000000
unfolding remaining
remaining_value = refl

remaining-WithinAge_example :
    WithinAge clock 1050000000 5020000000
      (200000000 - remaining clock 1050000000 5020000000 200000000)
remaining-WithinAge_example =
    remaining-WithinAge clock 1050000000 5020000000 200000000 (omega (arith, remaining_value))

remaining_runs_down_example :
    remaining clock 1060000000 5040000000 200000000
    ≤ remaining clock 1050000000 5020000000 200000000
      - min (1060000000 - 1050000000) (5040000000 - 5020000000)
remaining_runs_down_example =
    remaining_runs_down clock 1050000000 5020000000 1060000000 5040000000 200000000 (omega arith)
      (omega arith) (omega (arith, remaining_value))

abbrev world_step : Json
world_step = obj (
    field "outcome" (obj (field "world_updated" (obj (field "stamp_ms" (int (pos 1100)) end)) end))
      end)

abbrev later_clock : AcceptedWorldClock
later_clock = record { stamp_ns = some 1100000000; wall_ns = some 5100000000 }

observed : observe clock world_step 5100000000 ≡ ok later_clock
unfolding observe find? find_or
observed = refl

observe-Observes_example : Observes clock 5100000000 (stamp_of world_step) later_clock
observe-Observes_example = observe-Observes clock later_clock world_step 5100000000 observed
