-- ===== src/Attempts/Verdict.antt =====
-- The verdicts of permit_attempts.py on a controller's telemetry: of a packet that must be accepted
-- (`require_no_fail_closed`) and of one that must be refused (`refusal`).
pub mod Search
pub mod Refused
pub mod Locks
pub mod Bounds
pub mod Accepted
use haetae.Prelude.{
  ℕ, String, Bool, true, false, not, ◌&&◌, ◌||◌, Option, none, some, List, [], ◌∷◌, if◌then◌else◌,
}
use haetae.Prelude.Int.{ℤ, pos, ◌+ℤ◌, ◌-ℤ◌, ltb_ℤ, leb_ℤ}
use haetae.Python.{Result, ok, err, assertion_error, runner_delay, type_error, ◌>>=◌, ◌>>◌}
use haetae.Attempts.{
  Row, Grant, GrantChain, Controller, base, arm, admitted, is_text, same_text, same_count, eq_ℤ,
}
use haetae.Attempts.Hold.{
  At, Held, first_where, first_fail_closed, hold_evidence, hold_at_lease_end, lapse_evidence,
  goal_window_evidence,
}
use text.Mathlib.Text.{◌==◌ as str_eq}

-- What `require_no_fail_closed` returns: None, or PENDING.
pub data Seen : Type 0 where
  nothing pending : Seen

abbrev pub is_arm : Controller → Bool
is_arm base = false
is_arm (arm _) = true

abbrev pub after_of : Controller → Option ℤ
after_of base = none
after_of (arm after_ns) = after_ns

-- A lock that a bound in time can explain.
abbrev pub is_lock : Controller → ℤ → Option String → Bool
is_lock target delta reason =
    (eq_ℤ delta (pos 0) && is_text "expired" reason)
    || (eq_ℤ delta (pos 1) && is_text "locked" reason)
    || (eq_ℤ delta (pos 1) && is_text "rejected" reason && is_arm target)

unfoldable pub bound_evidence : Controller → List Row → At → Option Grant → Result (Option Bool)
unfolding lapse_evidence goal_window_evidence
bound_evidence target rows event none = lapse_evidence target rows event none
bound_evidence target rows event (some grant) =
    if is_text "rejected" event.row.reason && str_eq grant.kind "arm-goal"
    then goal_window_evidence rows event grant (after_of target)
    else lapse_evidence target rows event (some grant)

abbrev pub settled : Option Bool → Result Seen
settled none = ok pending
settled (some true) = err runner_delay
settled (some false) = err assertion_error

unfoldable pub classify : Controller → List Row → At → ℤ → GrantChain → Result Seen
unfolding admitted bound_evidence
classify target rows event rejected_before chain =
    let delta = event.row.rejected -ℤ rejected_before in
    if eq_ℤ delta (pos 1) && is_text "freshness" event.row.reason
    then err runner_delay
    else if not (is_lock target delta event.row.reason)
    then err assertion_error
    else do
      grant ← admitted event.row.accepted chain
      verdict ← bound_evidence target rows event grant
      settled verdict

unfoldable pub require_no_fail_closed : Controller → List Row → ℤ → ℤ → GrantChain → Result Seen
unfolding first_where classify
require_no_fail_closed target rows since_ns rejected_before chain =
    elim (first_fail_closed rows since_ns rejected_before) [
      | none ↦ ok nothing
      | some event ↦ classify target rows event rejected_before chain
    ]

abbrev pub in_texts : List String → Option String → Bool
in_texts [] reason = false
in_texts (t ∷ texts) reason = is_text t reason || in_texts texts reason

unfoldable pub negative_timing : Controller → String → List String
negative_timing target case' =
    let late =
      if is_arm target && not (str_eq case' "renewal_delay") then "rejected" ∷ [] else [] in
    if str_eq case' "signature" then "freshness" ∷ late else late

-- The state of the controller before the packet left.
pub record Witness : Type 0 where
  pub sent_wall_ns : ℤ
  pub nonce_before : Option String
  pub accepted_before : Option ℤ
  pub rejected_before : ℤ
  pub before_published_wall_ns : Option ℤ

abbrev pub since : Witness → ℤ
since w = elim w.before_published_wall_ns [ none ↦ w.sent_wall_ns | some t ↦ t ]

-- What one row leaves of the search: it goes on with the refusal found so far, or nothing is
-- decided.
pub data Look : Type 0 where
  goes_on : Option At → Look
  undecided : Look

abbrev pub lapsed : Option Bool → Result Look
lapsed none = ok undecided
lapsed (some true) = err runner_delay
lapsed (some false) = err assertion_error

module _ (target : Controller) (rows : List Row) (w : Witness) (expected : String)
    (timing : List String) (governing : Option Grant) where
  abbrev pub is_unchanged : Row → Bool
  is_unchanged row = same_text row.nonce w.nonce_before && same_count row.accepted w.accepted_before

  -- Nothing was counted yet.
  unfoldable pub before_refusal : At → Option Grant → Result Look
  unfolding lapse_evidence
  before_refusal event none = ok (goes_on none)
  before_refusal event (some grant) =
      if not (is_text "expired" event.row.reason)
      then ok (goes_on none)
      else do verdict ← lapse_evidence target rows event (some grant); lapsed verdict

  -- The first row that counts the packet's refusal.
  unfoldable pub first_refusal : At → Result Look
  unfolding lapse_evidence
  first_refusal event =
      if is_text expected event.row.reason
      then ok (goes_on (some event))
      else if not (in_texts timing event.row.reason)
      then err assertion_error
      else if is_text "freshness" event.row.reason
      then err runner_delay
      else do verdict ← lapse_evidence target rows event governing; lapsed verdict

  -- Behind the test of the nonce and the count.
  unfoldable pub look_at : Option At → At → Result Look
  unfolding before_refusal first_refusal
  look_at none event =
      if leb_ℤ event.row.rejected w.rejected_before
      then before_refusal event governing
      else if ltb_ℤ event.row.published_wall_ns w.sent_wall_ns
      then err assertion_error
      else if not (eq_ℤ event.row.rejected (w.rejected_before +ℤ pos 1))
      then err assertion_error
      else first_refusal event
  look_at (some found) event =
      if ltb_ℤ event.row.published_wall_ns w.sent_wall_ns
      then err assertion_error
      else if not (eq_ℤ event.row.rejected (w.rejected_before +ℤ pos 1))
      then err assertion_error
      else ok (goes_on (some found))

  unfoldable pub look : Option At → At → Result Look
  unfolding look_at
  look found event =
      if ltb_ℤ event.row.published_wall_ns (since w)
      then ok (goes_on found)
      else if not (is_unchanged event.row)
      then err assertion_error
      else look_at found event

  abbrev pub going_on : (Option At → Result Look) → Result Look → Result Look
  going_on rest (err e) = err e
  going_on rest (ok undecided) = ok undecided
  going_on rest (ok (goes_on found)) = rest found

  unfoldable pub scan : List Row → Option At → Result Look
  unfolding look
  scan [] found = ok (goes_on found)
  scan (row ∷ rest) found = going_on (scan rest) (look found (record { row = row; rest = rest }))

  abbrev pub latched : At → Option At
  latched event =
      first_where (λ row. row.holding && same_text row.reason event.row.reason)
        (event.row ∷ event.rest)

  abbrev pub shown_by : Row → Option At → Option (Row × Row)
  shown_by row none = none
  shown_by row (some latch) = some (row, latch.row)

  -- The arm's hold, which the end of the lease must not explain.
  abbrev pub apart : Row → Option At → Option Held → Option Grant → Result (Option (Row × Row))
  apart row none held lease = ok none
  apart row (some latch) none lease = ok none
  apart row (some latch) (some held) none = err type_error
  apart row (some latch) (some held) (some grant) =
      if hold_at_lease_end held grant then err runner_delay else ok (some (row, held.row))

  -- Behind the loop.
  unfoldable pub conclude : Controller → At → Result (Option (Row × Row))
  unfolding hold_evidence hold_at_lease_end first_where
  conclude (arm (some after_ns)) event = do
    held ← hold_evidence rows event (some after_ns)
    apart event.row (latched event) held governing
  conclude _ event = ok (shown_by event.row (latched event))

  abbrev pub concluded : Look → Result (Option (Row × Row))
  concluded undecided = ok none
  concluded (goes_on none) = ok none
  concluded (goes_on (some event)) = conclude target event

  -- The row of the refusal, with the row that shows the hold.
  unfoldable pub refusal : Result (Option (Row × Row))
  unfolding scan conclude
  refusal = scan rows none >>= concluded
