-- ===== src/Attempts/Hold.antt =====
-- The evidence of permit_attempts.py: the first row that shows a refusal or a lapse, the arm's hold
-- behind it, and whether the lease's own end can explain it. Evidence that is not visible yet is
-- none.
pub mod Stamps
pub mod Shown
use haetae.Prelude.{
  ℕ, String, Bool, true, false, not, ◌&&◌, ◌||◌, Option, none, some, List, [], ◌∷◌, if◌then◌else◌,
}
use haetae.Prelude.Int.{ℤ, pos, ◌+ℤ◌, ◌-ℤ◌, ltb_ℤ, leb_ℤ, max_ℤ, ms}
use haetae.Python.{Result, ok, err, assertion_error, type_error, ◌>>=◌}
use haetae.Attempts.{
  Row, Grant, Controller, base, arm, verifier_window_ns, lapse_allowance_ns, controller_update_ns,
  is_text,
}

-- A row with what is behind it: an index into a list of rows.
pub record At : Type 0 where
  pub row : Row
  pub rest : List Row

-- `next((... for index, row in enumerate(rows) if test(row)), None)`
unfoldable pub first_where : (Row → Bool) → List Row → Option At
first_where test [] = none
first_where test (row ∷ rows) =
    if test row then some (record { row = row; rest = rows }) else first_where test rows

-- A counted rejection or a lapse, published since then.
abbrev pub fails_closed : ℤ → ℤ → Row → Bool
fails_closed since_ns rejected_before row =
    leb_ℤ since_ns row.published_wall_ns
    && (ltb_ℤ rejected_before row.rejected || is_text "expired" row.reason)

abbrev pub first_fail_closed : List Row → ℤ → ℤ → Option At
first_fail_closed rows since_ns rejected_before =
    first_where (fails_closed since_ns rejected_before) rows

-- The two stamps of a hold.
pub record Held : Type 0 where
  pub row : Row
  pub stop_wall_ns : ℤ
  pub cutoff_ms : ℤ

-- The tests of `hold_row` in their order; a stamp is not compared with None.
abbrev pub held_since : Option ℤ → ℤ → ℤ → Row → Result (Option Held)
held_since none stop cutoff row = err type_error
held_since (some after_ns) stop cutoff row =
    if leb_ℤ after_ns stop
    then ok (some (record { row = row; stop_wall_ns = stop; cutoff_ms = cutoff }))
    else ok none

abbrev pub stamped_hold : Option ℤ → Option ℤ → Option ℤ → Row → Result (Option Held)
stamped_hold (some stop) (some cutoff) after_ns row = held_since after_ns stop cutoff row
stamped_hold _ _ after_ns row = ok none

abbrev pub hold_of : Option ℤ → Row → Result (Option Held)
hold_of after_ns row =
    if row.holding then stamped_hold row.stop_wall_ns row.cutoff_ms after_ns row else ok none

abbrev pub or_else : Result (Option Held) → Result (Option Held) → Result (Option Held)
or_else (err e) rest = err e
or_else (ok (some held)) rest = ok (some held)
or_else (ok none) rest = rest

unfoldable pub hold_row : List Row → Option ℤ → Result (Option Held)
hold_row [] after_ns = ok none
hold_row (row ∷ rows) after_ns = or_else (hold_of after_ns row) (hold_row rows after_ns)

abbrev stamp_or : ℤ → Option ℤ → ℤ
stamp_or latest none = latest
stamp_or latest (some stamp) = max_ℤ latest stamp

-- The greatest of the stamps, of which one is given.
unfoldable pub latest : ℤ → List Row → ℤ
latest stamp [] = stamp
latest stamp (row ∷ rows) = latest (stamp_or stamp row.stamp_ms) rows

-- Three updates of 10 ms.
abbrev pub hold_limit : ℤ → ℤ
hold_limit stamp = stamp +ℤ pos 30

abbrev pub prompt_hold : ℤ → List Row → Option Held → Result (Option Held)
prompt_hold stamp rest (some held) =
    if ltb_ℤ (hold_limit stamp) held.cutoff_ms then err assertion_error else ok (some held)
prompt_hold stamp rest none =
    if ltb_ℤ (hold_limit stamp) (latest stamp rest) then err assertion_error else ok none

unfoldable pub hold_evidence : List Row → At → Option ℤ → Result (Option Held)
unfolding hold_row latest
hold_evidence rows event after_ns = elim event.row.stamp_ms [
  | none ↦ err assertion_error
  | some stamp ↦ (do held ← hold_row rows after_ns; prompt_hold stamp event.rest held)
]

unfoldable pub hold_at_lease_end : Held → Grant → Bool
hold_at_lease_end held grant =
    leb_ℤ grant.wall_end_ns held.stop_wall_ns
    || leb_ℤ (grant.sim_end_ns -ℤ controller_update_ns) (ms held.cutoff_ms)

-- A verdict on a hold, or none where it is not visible.
abbrev pub judged : (Held → Bool) → Option Held → Option Bool
judged test none = none
judged test (some held) = some (test held)

unfoldable pub lapse_evidence : Controller → List Row → At → Option Grant → Result (Option Bool)
unfolding hold_evidence hold_at_lease_end
lapse_evidence target rows event none = ok (some false)
lapse_evidence base rows event (some grant) =
    ok (some (leb_ℤ (grant.wall_end_ns -ℤ lapse_allowance_ns) event.row.published_wall_ns))
lapse_evidence (arm after_ns) rows event (some grant) = do
  held ← hold_evidence rows event after_ns
  ok (judged (λ h. hold_at_lease_end h grant) held)

-- Whether the goal's own window can have closed by the hold.
unfoldable pub goal_window_evidence : List Row → At → Grant → Option ℤ → Result (Option Bool)
unfolding hold_evidence
goal_window_evidence rows event goal after_ns = do
  held ← hold_evidence rows event after_ns
  ok (
      judged
        (λ h. leb_ℤ (goal.sim_ns +ℤ verifier_window_ns -ℤ controller_update_ns) (ms h.cutoff_ms))
        held)
