-- ===== src/Permits/Clock.antt =====
-- `AcceptedWorldClock`: how long the last world that the engine accepted still gives authority, by
-- simulation time and by wall time. Clock readings are nanoseconds.
pub mod Observed
use haetae.Prelude.{
  ℕ, ◌-◌, ◌*◌, ◌≤◌, ◌<◌, ◌≡◌, refl, sym, ap, ◌∙◌, subst, inl, inr, Bool-cases, Option-cases, String,
  ◌⊎◌, ◌||◌, Bool, true, false, Option, none, some, arith, ltb, if◌then◌else◌,
}
use Prim.Native.Nat.{min}
use haetae.Prelude.Int.{ℤ, pos, negsuc}
use haetae.Python.{Result, ok, ◌>>=◌, >>=-eq-ok, ok-injective, fields_of}
use haetae.Python.Values.{
  Json, Fields, null, bool, int, float, str, arr, obj, end, field, find?, find_or, find, truthy,
  or_empty,
}

-- `stamp_ns` and `wall_ns` are set together.
pub record AcceptedWorldClock : Type 0 where
  pub stamp_ns : Option ℕ
  pub wall_ns : Option ℕ

abbrev pub init : AcceptedWorldClock
init = record { stamp_ns = none; wall_ns = none }

-- `self.stamp_ns is None or stamp > self.stamp_ns`
abbrev pub advances : Option ℕ → ℕ → Bool
advances none stamp = true
advances (some last) stamp = ltb last stamp

-- The update for an integer stamp in milliseconds that is not negative.
abbrev pub accept : AcceptedWorldClock → ℕ → ℕ → AcceptedWorldClock
accept clock stamp_ms request_wall_ns =
    if advances clock.stamp_ns (stamp_ms * 1000000)
    then record { stamp_ns = some (stamp_ms * 1000000); wall_ns = some request_wall_ns }
    else clock

abbrev pub observe_stamp : AcceptedWorldClock → Json → ℕ → AcceptedWorldClock
observe_stamp clock (int (pos stamp_ms)) request_wall_ns = accept clock stamp_ms request_wall_ns
observe_stamp clock _ request_wall_ns = clock

unfoldable pub observe : AcceptedWorldClock → Json → ℕ → Result AcceptedWorldClock
observe clock step request_wall_ns = do
  top ← fields_of step
  outcome ← fields_of (or_empty (find "outcome" top))
  updated ← fields_of (or_empty (find "world_updated" outcome))
  ok (observe_stamp clock (find "stamp_ms" updated) request_wall_ns)

abbrev pub remaining_at : Option ℕ → Option ℕ → ℕ → ℕ → ℕ → ℕ
remaining_at (some stamp) (some wall) sim_ns wall_ns maximum_ns =
    if ltb sim_ns stamp || ltb wall_ns wall
    then 0
    else min (maximum_ns - (sim_ns - stamp)) (maximum_ns - (wall_ns - wall))
remaining_at _ _ sim_ns wall_ns maximum_ns = 0

-- `max(0, min(..))` of the differences: subtraction stops at 0.
unfoldable pub remaining : AcceptedWorldClock → ℕ → ℕ → ℕ → ℕ
remaining clock sim_ns wall_ns maximum_ns =
    remaining_at clock.stamp_ns clock.wall_ns sim_ns wall_ns maximum_ns

-- The age of the accepted world by both clocks.
pub record WithinAge (clock : AcceptedWorldClock) (sim_ns wall_ns age : ℕ) : Type 0 where
  pub stamp : ℕ
  pub wall : ℕ
  pub has_stamp : clock.stamp_ns ≡ some stamp
  pub has_wall : clock.wall_ns ≡ some wall
  pub sim_forward : stamp ≤ sim_ns
  pub wall_forward : wall ≤ wall_ns
  pub sim_age : sim_ns - stamp ≤ age
  pub wall_age : wall_ns - wall ≤ age

within :
    (clock : AcceptedWorldClock) (s w m : ℕ) (stamp wall : Option ℕ)
    → clock.stamp_ns ≡ stamp
    → clock.wall_ns ≡ wall
    → 0 < remaining_at stamp wall s w m
    → WithinAge clock s w (m - remaining_at stamp wall s w m)
within clock s w m (some stamp) (some wall) p q h = record {
  stamp = stamp;
  wall = wall;
  has_stamp = p;
  has_wall = q;
  sim_forward = ground arith;
  wall_forward = ground arith;
  sim_age = ground arith;
  wall_age = ground arith;
}
within clock s w m _ _ p q h = absurd (omega arith)

-- Where any authority remains, a world was accepted, both clocks have moved forward since, and
-- what remains together with either age is within the maximum.
pub remaining-WithinAge :
    (clock : AcceptedWorldClock) (sim_ns wall_ns maximum_ns : ℕ)
    → 0 < remaining clock sim_ns wall_ns maximum_ns
    → WithinAge clock sim_ns wall_ns (maximum_ns - remaining clock sim_ns wall_ns maximum_ns)
unfolding remaining
remaining-WithinAge clock s w m h = within clock s w m clock.stamp_ns clock.wall_ns refl refl h

-- Authority runs down with the clock that moves less: with no new world, what remains at later
-- readings is less by at least that much.
pub remaining_runs_down :
    (clock : AcceptedWorldClock) (sim_ns wall_ns sim_later wall_later maximum_ns : ℕ)
    → sim_ns ≤ sim_later
    → wall_ns ≤ wall_later
    → 0 < remaining clock sim_ns wall_ns maximum_ns
    → remaining clock sim_later wall_later maximum_ns
      ≤ remaining clock sim_ns wall_ns maximum_ns - min (sim_later - sim_ns) (wall_later - wall_ns)
unfolding remaining
remaining_runs_down clock s w s' w' m p q h = ground arith
