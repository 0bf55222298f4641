-- ===== src/Attempts/Verdict/Refused.antt =====
-- What `refusal` of permit_attempts.py guarantees where it returns a row.
use haetae.Prelude.{
  ◌≡◌, refl, sym, ap, subst, ◌∙◌, inl, inr, arith, String, Bool, true, Option, none, some, List, [],
  ◌∷◌, All, if-cases,
}
use haetae.Prelude.Int.{ℤ, ◌-ℤ◌, ◌≤ℤ◌, ◌<ℤ◌, ms}
use haetae.Python.{ok, >>=-eq-ok, ok-injective}
use haetae.Attempts.{Row, Grant, Controller, base, arm, controller_update_ns}
use haetae.Attempts.Hold.{At, Held, first_where, hold_evidence, hold_at_lease_end}
use haetae.Attempts.Hold.{hold_limit}
use haetae.Attempts.Hold.Stamps.{hold_evidence-Stamped, before_lease_end}
use haetae.Attempts.Verdict.{
  Witness, Look, goes_on, undecided, scan, latched, shown_by, apart, conclude, concluded, refusal,
}
use haetae.Attempts.Verdict.Search.{Counts, IsSteady, some_eq, unless_raised, scan-goes_on}

-- The arm's own stamps put the hold at most three updates behind the refusal, and before the end of
-- the lease.
abbrev pub IsApart : Controller → Option Grant → Row → Row → Type 0
IsApart (arm (some after_ns)) (some grant) row held =
    (stamp stop cutoff : ℤ) × (row.stamp_ms ≡ some stamp)
    × (held.stop_wall_ns ≡ some stop)
    × (held.cutoff_ms ≡ some cutoff)
    × (cutoff ≤ℤ hold_limit stamp)
    × (after_ns ≤ℤ stop)
    × (stop <ℤ grant.wall_end_ns)
    × (ms cutoff <ℤ grant.sim_end_ns -ℤ controller_update_ns)
IsApart _ _ row held = Unit

module _ (target : Controller) (rows : List Row) (w : Witness) (expected : String)
    (timing : List String) (governing : Option Grant) where
  first_where-test :
      (test : Row → Bool) (rs : List Row) (a : At)
      → first_where test rs ≡ some a
      → test a.row ≡ true
  unfolding first_where
  first_where-test test [] a h = cc
  first_where-test test (row ∷ rs) a h = elim (if-cases (test row) _ _ _ h) [
    | inl (b, k) ↦ ap (λ x. test x.row) (some_eq _ _ (sym k)) ∙ b
    | inr (b, k) ↦ first_where-test test rs a k
  ]

  shown-Held :
      (event : At) (row held : Row)
      → shown_by target rows w expected timing governing event.row
          (latched target rows w expected timing governing event)
        ≡ some (row, held)
      → (row ≡ event.row) × (held.holding ≡ true)
  shown-Held event row held h = go (latched target rows w expected timing governing event) refl h
    where
      go :
          (l : Option At)
          → latched target rows w expected timing governing event ≡ l
          → shown_by target rows w expected timing governing event.row l ≡ some (row, held)
          → (row ≡ event.row) × (held.holding ≡ true)
      go none e k = cc
      go (some latch) e k =
          let same : (event.row, latch.row) ≡ (row, held) = some_eq _ _ k in
          let t = first_where-test _ (event.row ∷ event.rest) latch e in
          (
            sym (ap (λ x. x.0) same),
            subst (λ (r : Row). r.holding ≡ true) (ap (λ x. x.1) same) (ground (arith, t)),
          )

  apart-Held :
      (after_ns : ℤ) (event : At) (latch : Option At) (shown : Option Held) (lease : Option Grant)
      (row held : Row)
      → hold_evidence rows event (some after_ns) ≡ ok shown
      → apart target rows w expected timing governing event.row latch shown lease
        ≡ ok (some (row, held))
      → (row ≡ event.row)
        × (held.holding ≡ true)
        × IsApart (arm (some after_ns)) lease event.row held
  apart-Held after_ns event none shown lease row held e h = cc
  apart-Held after_ns event (some latch) none lease row held e h = cc
  apart-Held after_ns event (some latch) (some x) none row held e h = cc
  apart-Held after_ns event (some latch) (some x) (some grant) row held e h =
      let (b, k) = unless_raised (hold_at_lease_end x grant) _ _ h in
      let same : (event.row, x.row) ≡ (row, held) = some_eq _ _ (ok-injective k) in
      let (s, (stamp, at', prompt)) = hold_evidence-Stamped rows event after_ns x e in
      let (wall, sim) = before_lease_end x grant b in
      let held-eq : x.row ≡ held = ap (λ p. p.1) same in
      (
        sym (ap (λ p. p.0) same),
        subst (λ (r : Row). r.holding ≡ true) held-eq s.holding,
        (
          stamp,
          x.stop_wall_ns,
          x.cutoff_ms,
          at',
          subst (λ (r : Row). r.stop_wall_ns ≡ some x.stop_wall_ns) held-eq s.stop,
          subst (λ (r : Row). r.cutoff_ms ≡ some x.cutoff_ms) held-eq s.cutoff,
          prompt,
          s.behind,
          wall,
          sim,
        ),
      )

  -- The row with its hold.
  conclude-Held :
      (t : Controller) (event : At) (row held : Row)
      → conclude target rows w expected timing governing t event ≡ ok (some (row, held))
      → (row ≡ event.row) × (held.holding ≡ true) × IsApart t governing event.row held
  unfolding conclude
  conclude-Held base event row held h =
      let (r, t) = shown-Held event row held (ok-injective h) in (r, t, tt)
  conclude-Held (arm none) event row held h =
      let (r, t) = shown-Held event row held (ok-injective h) in (r, t, tt)
  conclude-Held (arm (some after_ns)) event row held h =
      let (shown, e, k) = >>=-eq-ok (hold_evidence rows event (some after_ns)) _ h in
      apart-Held after_ns event _ shown governing row held e k

-- A refusal that is reported.
pub record Refused (target : Controller) (rows : List Row) (w : Witness) (expected : String)
    (governing : Option Grant) (row held : Row) : Type 0 where
  pub steady : All (IsSteady w) rows
  pub counts : Counts w expected row
  pub holding : held.holding ≡ true
  pub is_apart : IsApart target governing row held

-- Where `refusal` reports a row, every row from the witness on shows a controller that admitted
-- nothing, was not activated again and rejected at most the packet; the row counts exactly one
-- rejection, for the expected reason, behind the packet; and the controller holds. Where the arm's
-- holds count from an instant and a lease governs, the hold began behind that instant, at most
-- three updates behind the refusal, and before the lease could end on either clock.
pub refusal-Refused :
    (target : Controller) (rows : List Row) (w : Witness) (expected : String) (timing : List String)
    (governing : Option Grant) (row held : Row)
    → refusal target rows w expected timing governing ≡ ok (some (row, held))
    → Refused target rows w expected governing row held
unfolding refusal
refusal-Refused target rows w expected timing governing row held h =
    let (seen, e, k) = >>=-eq-ok (scan target rows w expected timing governing rows none) _ h in
    go seen e k
  where
    go :
        (seen : Look)
        → scan target rows w expected timing governing rows none ≡ ok seen
        → concluded target rows w expected timing governing seen ≡ ok (some (row, held))
        → Refused target rows w expected governing row held
    go undecided e k = cc
    go (goes_on none) e k = cc
    go (goes_on (some event)) e k =
        let (steady, found) =
          scan-goes_on target rows w expected timing governing rows none (some event) e in
        let (r, t, a) =
          conclude-Held target rows w expected timing governing target event row held k in
        elim found [
          | inl q ↦ cc
          | inr (event', q, c) ↦ record {
            steady = steady;
            counts =
                subst (Counts w expected) (ap (λ x. x.row) (some_eq event' event (sym q)) ∙ sym r)
                  c;
            holding = t;
            is_apart = subst (λ x. IsApart target governing x held) (sym r) a;
          }
        ]
