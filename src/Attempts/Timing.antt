-- ===== src/Attempts/Timing.antt =====
-- What permit_attempts.py asks of a packet at the instant it leaves, and of its refusal. A send
-- that is too late to decide anything is the runner's delay; a packet that is no test at all is a
-- failure.
use haetae.Prelude.{Bool, ◌&&◌, ◌||◌, not, if◌then◌else◌}
use haetae.Prelude.Int.{ℤ, pos, ◌-ℤ◌, ltb_ℤ, leb_ℤ, max_ℤ}
use haetae.Python.{Result, ok, err, assertion_error, runner_delay}
use haetae.Attempts.{Row, Grant, Controller, base, arm, verifier_window_ns, lapse_allowance_ns}

abbrev pub permit_age_ns : Grant → ℤ → ℤ → ℤ
permit_age_ns fields wall_ns sim_ns = max_ℤ (wall_ns -ℤ fields.wall_ns) (sim_ns -ℤ fields.sim_ns)

-- One of the ends of the permit has passed.
abbrev pub has_ended : Grant → ℤ → ℤ → Bool
has_ended fields wall_ns sim_ns = leb_ℤ fields.wall_end_ns wall_ns || leb_ℤ fields.sim_end_ns sim_ns

-- The age that it returns, in nanoseconds.
unfoldable pub check_timely : Grant → ℤ → ℤ → Result ℤ
check_timely fields wall_ns sim_ns =
    let age = permit_age_ns fields wall_ns sim_ns in
    if leb_ℤ verifier_window_ns age || has_ended fields wall_ns sim_ns
    then err runner_delay
    else ok age

unfoldable pub require_live : Grant → ℤ → ℤ → Result (Unit {0})
require_live grant wall_ns sim_ns =
    if has_ended grant wall_ns sim_ns then err runner_delay else ok tt

unfoldable pub require_fresh_witness : ℤ → ℤ → Result (Unit {0})
require_fresh_witness published_ns sent_ns =
    let age = sent_ns -ℤ published_ns in
    if not (leb_ℤ (pos 0) age && ltb_ℤ age verifier_window_ns) then err runner_delay else ok tt

unfoldable pub require_stale_window : Grant → ℤ → ℤ → Result (Unit {0})
require_stale_window fields wall_ns sim_ns =
    if ltb_ℤ (wall_ns -ℤ fields.wall_ns) verifier_window_ns
      || ltb_ℤ (sim_ns -ℤ fields.sim_ns) verifier_window_ns
    then err assertion_error
    else if has_ended fields wall_ns sim_ns
    then err runner_delay
    else ok tt

unfoldable pub require_refused_inside_stale_window : Row → Grant → Result (Unit {0})
require_refused_inside_stale_window refusal_row fields =
    if leb_ℤ (fields.wall_end_ns -ℤ lapse_allowance_ns) refusal_row.published_wall_ns
    then err runner_delay
    else ok tt

abbrev pub allowance : Controller → ℤ
allowance base = lapse_allowance_ns
allowance (arm _) = pos 0

unfoldable pub require_refused_inside_lease : Controller → Row → ℤ → Result (Unit {0})
require_refused_inside_lease target refusal_row lease_wall_end_ns =
    if leb_ℤ (lease_wall_end_ns -ℤ allowance target) refusal_row.published_wall_ns
    then err runner_delay
    else ok tt
