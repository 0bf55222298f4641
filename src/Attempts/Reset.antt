-- ===== src/Attempts/Reset.antt =====
-- The rules of permit_attempts.py around a packet: the refusal with its hold, a renewal that was
-- sent too late, and the controller's state since its reset.
use haetae.Prelude.{
  String, Bool, false, not, ◌&&◌, ◌||◌, Option, none, some, List, [], ◌∷◌, if◌then◌else◌,
}
use haetae.Prelude.Int.{ℤ, pos, ◌-ℤ◌, ltb_ℤ, leb_ℤ}
use haetae.Python.{Result, ok, err, assertion_error, runner_delay, ◌>>=◌}
use haetae.Attempts.{Row, Grant, Controller, base, arm, is_text, same_text, same_count, eq_ℤ}
use haetae.Attempts.Hold.{Held, first_where, hold_evidence, hold_at_lease_end}
use haetae.Attempts.Verdict.{Seen, nothing, pending, require_no_fail_closed}

-- The first row with a counted rejection, with the arm's hold.
abbrev pub with_hold : Row → Option Held → Option (Row × Row)
with_hold row none = none
with_hold row (some held) = some (row, held.row)

unfoldable pub refusal_hold : List Row → ℤ → ℤ → ℤ → Result (Option (Row × Row))
unfolding first_where hold_evidence
refusal_hold rows sent_ns rejected_before after_ns =
    elim (first_where
      (λ row. leb_ℤ sent_ns row.published_wall_ns && ltb_ℤ rejected_before row.rejected) rows) [
        | none ↦ ok none
        | some event ↦ (do
          held ← hold_evidence rows event (some after_ns)
          ok (with_hold event.row held))
      ]

-- The stop that it returns.
unfoldable pub late_stop_verdict : Held → ℤ → Grant → Result ℤ
unfolding hold_at_lease_end
late_stop_verdict held sent_ns goal =
    if leb_ℤ sent_ns held.stop_wall_ns
    then (if not (hold_at_lease_end held goal) then ok held.stop_wall_ns else err runner_delay)
    else if hold_at_lease_end held goal
    then err runner_delay
    else err assertion_error

-- `reset()`'s record of a controller.
pub record ResetGrant : Type 0 where
  pub nonce : Option String
  pub accepted : ℤ
  pub rejected : ℤ
  pub unlocked_wall_ns : ℤ
  pub fields : Grant

abbrev last_row : Row → List Row → Row
last_row row [] = row
last_row row (next ∷ rows) = last_row next rows

abbrev pub is_reset_state : Row → ResetGrant → Bool
is_reset_state row grant =
    same_text row.nonce grant.nonce
    && same_count row.accepted (some grant.accepted)
    && eq_ℤ row.rejected grant.rejected
    && (is_text "accepted" row.reason || is_text "expired" row.reason)

abbrev pub holding_from : ℤ → Controller → Controller
holding_from after_ns base = base
holding_from after_ns (arm _) = arm (some after_ns)

-- The rows are never empty.
unfoldable pub reset_lease_events : Controller → Row → List Row → ResetGrant → Result Seen
unfolding require_no_fail_closed
reset_lease_events target row rows grant =
    if not (is_reset_state (last_row row rows) grant)
    then err assertion_error
    else require_no_fail_closed (holding_from grant.unlocked_wall_ns target) (row ∷ rows)
        grant.unlocked_wall_ns grant.rejected
        (record { first = grant.fields; later = []; accepted_before = grant.accepted -ℤ pos 1 })

-- False, or an exception.
abbrev missed : Seen → Result Bool
missed pending = ok false
missed nothing = err runner_delay

unfoldable pub precondition_miss : Controller → Row → List Row → ResetGrant → Result Bool
unfolding reset_lease_events
precondition_miss target row rows grant = reset_lease_events target row rows grant >>= missed
