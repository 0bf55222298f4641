-- ===== src/Attempts/Hold/Stamps.antt =====
-- What a hold of permit_attempts.py shows.
use haetae.Prelude.{
  ◌≡◌, refl, ap, ◌∙◌, subst, arith, Bool, true, false, inl, inr, if-cases, Option, none, some, List,
  [], ◌∷◌, if◌then◌else◌,
}
use haetae.Prelude.Int.{ℤ, ◌≤ℤ◌, ◌<ℤ◌, leb_ℤ, ms, ◌-ℤ◌, ltb_ℤ}
use haetae.Python.{Result, ok, err, assertion_error, ◌>>=◌, >>=-eq-ok}
use haetae.Attempts.{Row, Grant, controller_update_ns}
use haetae.Attempts.Hold.{
  At, Held, stamped_hold, latest, hold_of, hold_row, or_else, hold_evidence, prompt_hold,
  hold_limit, hold_at_lease_end,
}

-- The row shows the hold, and its stop is stamped at the instant or behind it.
pub record Stamped (after_ns : ℤ) (held : Held) : Type 0 where
  pub holding : held.row.holding ≡ true
  pub stop : held.row.stop_wall_ns ≡ some held.stop_wall_ns
  pub cutoff : held.row.cutoff_ms ≡ some held.cutoff_ms
  pub behind : after_ns ≤ℤ held.stop_wall_ns

held_eq : (a b : Held) → ok (some a) ≡ ok (some b) → a ≡ b
held_eq a b h = cc

hold_of-Stamped :
    (after_ns : ℤ) (row : Row) (held : Held)
    → hold_of (some after_ns) row ≡ ok (some held)
    → Stamped after_ns held
hold_of-Stamped after_ns row held h = go row.holding row.stop_wall_ns row.cutoff_ms refl refl refl h
  where
    go :
        (b : Bool) (stop cutoff : Option ℤ)
        → row.holding ≡ b
        → row.stop_wall_ns ≡ stop
        → row.cutoff_ms ≡ cutoff
        → (if b then stamped_hold stop cutoff (some after_ns) row else ok none) ≡ ok (some held)
        → Stamped after_ns held
    go false stop cutoff hb hs hc k = cc
    go true none cutoff hb hs hc k = cc
    go true (some s) none hb hs hc k = cc
    go true (some s) (some c) hb hs hc k = elim (if-cases (leb_ℤ after_ns s) _ _ _ k) [
      | inl (b, e) ↦
          subst (Stamped after_ns)
            (held_eq (record { row = row; stop_wall_ns = s; cutoff_ms = c }) held e)
            (record { holding = hb; stop = hs; cutoff = hc; behind = ground arith })
      | inr (b, e) ↦ cc
    ]

-- The first hold that a list of rows shows.
pub hold_row-Stamped :
    (after_ns : ℤ) (rows : List Row) (held : Held)
    → hold_row rows (some after_ns) ≡ ok (some held)
    → Stamped after_ns held
unfolding hold_row
hold_row-Stamped after_ns [] held h = cc
hold_row-Stamped after_ns (row ∷ rows) held h =
    go (hold_of (some after_ns) row) refl h (hold_row-Stamped after_ns rows held)
  where
    go :
        (first : Result (Option Held))
        → hold_of (some after_ns) row ≡ first
        → or_else first (hold_row rows (some after_ns)) ≡ ok (some held)
        → (hold_row rows (some after_ns) ≡ ok (some held) → Stamped after_ns held)
        → Stamped after_ns held
    go (err e) f k others = cc
    go (ok none) f k others = others k
    go (ok (some g)) f k others = hold_of-Stamped after_ns row held (f ∙ k)

-- The hold that is evidence is stamped, and it began at most three updates behind the event.
pub hold_evidence-Stamped :
    (rows : List Row) (event : At) (after_ns : ℤ) (held : Held)
    → hold_evidence rows event (some after_ns) ≡ ok (some held)
    → Stamped after_ns held
      × ((stamp : ℤ) × (event.row.stamp_ms ≡ some stamp) × (held.cutoff_ms ≤ℤ hold_limit stamp))
unfolding hold_evidence
hold_evidence-Stamped rows event after_ns held h = go event.row.stamp_ms refl h
  where
    prompt :
        (stamp : ℤ) (shown : Option Held)
        → prompt_hold stamp event.rest shown ≡ ok (some held)
        → (shown ≡ some held) × (held.cutoff_ms ≤ℤ hold_limit stamp)
    prompt stamp none k =
        elim (if-cases (ltb_ℤ (hold_limit stamp) (latest stamp event.rest)) _ _ _ k) [
          | inl (b, e) ↦ cc
          | inr (b, e) ↦ cc
        ]
    prompt stamp (some g) k = elim (if-cases (ltb_ℤ (hold_limit stamp) g.cutoff_ms) _ _ _ k) [
      | inl (b, e) ↦ cc
      | inr (b, e) ↦
          let same : g ≡ held = held_eq g held e in
          (ap some same, subst (λ x. x.cutoff_ms ≤ℤ hold_limit stamp) same (ground arith))
    ]

    go :
        (stamp : Option ℤ)
        → event.row.stamp_ms ≡ stamp
        → elim stamp [
          | none ↦ err assertion_error
          | some stamp ↦ (do
            shown ← hold_row rows (some after_ns)
            prompt_hold stamp event.rest shown)
        ]
          ≡ ok (some held)
        → Stamped after_ns held
          × ((s : ℤ) × (event.row.stamp_ms ≡ some s) × (held.cutoff_ms ≤ℤ hold_limit s))
    go none e k = cc
    go (some stamp) e k =
        let (shown, hs, hp) = >>=-eq-ok (hold_row rows (some after_ns)) _ k in
        let (same, p) = prompt stamp shown hp in
        (hold_row-Stamped after_ns rows held (hs ∙ ap ok same), (stamp, e, p))

-- A hold that the end of the lease does not explain.
pub before_lease_end :
    (held : Held) (grant : Grant)
    → hold_at_lease_end held grant ≡ false
    → (held.stop_wall_ns <ℤ grant.wall_end_ns)
      × (ms held.cutoff_ms <ℤ grant.sim_end_ns -ℤ controller_update_ns)
unfolding hold_at_lease_end
before_lease_end held grant h = (ground arith, ground arith)
