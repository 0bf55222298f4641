-- ===== src/Attempts/Verdict/Bounds.antt =====
-- The evidence on which permit_attempts.py calls a lock the runner's delay, read off the rows and
-- the grants.
use haetae.Prelude.{
  ◌≡◌, refl, sym, ap, ◌∙◌, subst, ◌⊎◌, inl, inr, arith, Bool, true, ◌&&◌, Option, none, some, List,
  if-cases,
}
use haetae.Prelude.Int.{ℤ, pos, ◌+ℤ◌, ◌-ℤ◌, ◌≤ℤ◌, leb_ℤ, ms}
use haetae.Python.{ok, >>=-eq-ok, ok-injective}
use haetae.Attempts.{Row, Grant, Controller, base, arm, is_text}
use haetae.Attempts.Hold.{
  At, Held, hold_evidence, hold_at_lease_end, lapse_evidence, goal_window_evidence, judged,
}
use haetae.Attempts.Verdict.{after_of, bound_evidence}
use text.Mathlib.Text.{◌==◌ as str_eq}
use haetae.Attempts.Hold.Shown.{some-injective, Shown, hold_evidence-Shown}

-- The event, or the hold behind it, lies at a bound in time that the grant carries, or behind one:
-- the end of the lease, less 20 ms for the base and, by simulation time, less 10 ms for the arm, or
-- the end of a goal's window of 50 ms, less 10 ms.
pub data AtBound (rows : List Row) (event : At) (grant : Grant) : Controller → Type 0 where
  base_end :
      grant.wall_end_ns -ℤ pos 20000000 ≤ℤ event.row.published_wall_ns
      → AtBound rows event grant base
  arm_wall_end :
      (after_ns : ℤ) (held : Held)
      → Shown rows event after_ns held
      → grant.wall_end_ns ≤ℤ held.stop_wall_ns
      → AtBound rows event grant (arm (some after_ns))
  arm_sim_end :
      (after_ns : ℤ) (held : Held)
      → Shown rows event after_ns held
      → grant.sim_end_ns -ℤ pos 10000000 ≤ℤ ms held.cutoff_ms
      → AtBound rows event grant (arm (some after_ns))
  goal_window :
      (after_ns : ℤ) (held : Held)
      → Shown rows event after_ns held
      → is_text "rejected" event.row.reason ≡ true
      → str_eq grant.kind "arm-goal" ≡ true
      → grant.sim_ns +ℤ pos 50000000 -ℤ pos 10000000 ≤ℤ ms held.cutoff_ms
      → AtBound rows event grant (arm (some after_ns))

judged-true :
    (test : Held → Bool) (shown : Option Held)
    → judged test shown ≡ some true
    → (held : Held) × (shown ≡ some held) × (test held ≡ true)
judged-true test none h = cc
judged-true test (some held) h = (held, refl, some-injective h)

lapse_evidence-AtBound :
    (target : Controller) (rows : List Row) (event : At) (grant : Grant)
    → lapse_evidence target rows event (some grant) ≡ ok (some true)
    → AtBound rows event grant target
unfolding lapse_evidence hold_at_lease_end
lapse_evidence-AtBound base rows event grant h =
    let at_end = some-injective (ok-injective h) in base_end (ground arith)
lapse_evidence-AtBound (arm after_ns) rows event grant h =
    let (shown, hs, k) = >>=-eq-ok (hold_evidence rows event after_ns) _ h in
    let (held, e, test) = judged-true (λ x. hold_at_lease_end x grant) shown (ok-injective k) in
    let (t, timed, its) = hold_evidence-Shown rows event after_ns held (hs ∙ ap ok e) in
    let either : (grant.wall_end_ns ≤ℤ held.stop_wall_ns)
        ⊎ (grant.sim_end_ns -ℤ pos 10000000 ≤ℤ ms held.cutoff_ms) =
      ground arith in
    subst (λ a. AtBound rows event grant (arm a)) (sym timed)
      (elim either [
        | inl wall ↦ arm_wall_end t held its wall
        | inr sim ↦ arm_sim_end t held its sim
      ])

goal_window_evidence-AtBound :
    (target : Controller) (rows : List Row) (event : At) (grant : Grant)
    → (is_text "rejected" event.row.reason && str_eq grant.kind "arm-goal") ≡ true
    → goal_window_evidence rows event grant (after_of target) ≡ ok (some true)
    → AtBound rows event grant target
unfolding goal_window_evidence
goal_window_evidence-AtBound target rows event grant b h =
    let (shown, hs, k) = >>=-eq-ok (hold_evidence rows event (after_of target)) _ h in
    let (held, e, test) =
      judged-true (λ h. leb_ℤ (grant.sim_ns +ℤ pos 50000000 -ℤ pos 10000000) (ms h.cutoff_ms)) shown
        (ok-injective k) in
    let (t, timed, its) = hold_evidence-Shown rows event (after_of target) held (hs ∙ ap ok e) in
    go target t timed held its (ground arith) (ground arith) (ground arith)
  where
    go :
        (target : Controller) (t : ℤ)
        → after_of target ≡ some t
        → (held : Held) → Shown rows event t held
        → is_text "rejected" event.row.reason ≡ true
        → str_eq grant.kind "arm-goal" ≡ true
        → grant.sim_ns +ℤ pos 50000000 -ℤ pos 10000000 ≤ℤ ms held.cutoff_ms
        → AtBound rows event grant target
    go base t timed held its r g l = cc
    go (arm a) t timed held its r g l =
        subst (λ x. AtBound rows event grant (arm x)) (sym timed) (goal_window t held its r g l)

pub bound_evidence-AtBound :
    (target : Controller) (rows : List Row) (event : At) (grant : Option Grant)
    → bound_evidence target rows event grant ≡ ok (some true)
    → (g : Grant) × (grant ≡ some g) × AtBound rows event g target
unfolding bound_evidence
bound_evidence-AtBound target rows event none h = absurd (no_grant h)
  where
    no_grant : lapse_evidence target rows event none ≡ ok (some true) → ⊥
    no_grant k = cc
bound_evidence-AtBound target rows event (some g) h =
    elim (if-cases (is_text "rejected" event.row.reason && str_eq g.kind "arm-goal") _ _ _ h) [
      | inl (b, k) ↦ (g, refl, goal_window_evidence-AtBound target rows event g b k)
      | inr (b, k) ↦ (g, refl, lapse_evidence-AtBound target rows event g k)
    ]
