-- ===== src/Attempts/Hold/Shown.antt =====
-- The row that shows a hold of permit_attempts.py.
use haetae.Prelude.{
  ◌≡◌, refl, sym, ap, ◌∙◌, inl, inr, Option, none, some, List, [], ◌∷◌, ◌++◌, if-cases,
}
use haetae.Prelude.Int.{ℤ, pos, ◌+ℤ◌, ◌≤ℤ◌, ltb_ℤ, leb_ℤ}
use haetae.Python.{Result, ok, err, assertion_error, ◌>>=◌, >>=-eq-ok, ok-injective}
use haetae.Attempts.{Row}
use haetae.Attempts.Hold.{
  At, Held, hold_of, hold_row, or_else, held_since, stamped_hold, prompt_hold, hold_evidence,
  hold_limit, latest,
}
use haetae.Attempts.Hold.Stamps.{Stamped, hold_evidence-Stamped}

pub some-injective : {A : Type 0} {x y : A} → some x ≡ some y → x ≡ y
some-injective h = cc

-- The hold is one of the rows, stamped behind the instant, and at most 30 ms behind the event.
pub record Shown (rows : List Row) (event : At) (after_ns : ℤ) (held : Held) : Type 0 where
  pub before : List Row
  pub behind : List Row
  pub its_rows : rows ≡ before ++ held.row ∷ behind
  pub stamped : Stamped after_ns held
  pub stamp : ℤ
  pub its_stamp : event.row.stamp_ms ≡ some stamp
  pub prompt : held.cutoff_ms ≤ℤ stamp +ℤ pos 30

held_since-row :
    (after_ns : Option ℤ) (stop cutoff : ℤ) (row : Row) (held : Held)
    → held_since after_ns stop cutoff row ≡ ok (some held)
    → (held.row ≡ row) × ((t : ℤ) × (after_ns ≡ some t))
held_since-row none stop cutoff row held h = cc
held_since-row (some t) stop cutoff row held h = elim (if-cases (leb_ℤ t stop) _ _ _ h) [
  | inl (b, e) ↦ (sym (ap (λ x. x.row) (some-injective (ok-injective e))), (t, refl))
  | inr (b, e) ↦ cc
]

hold_of-row :
    (after_ns : Option ℤ) (row : Row) (held : Held)
    → hold_of after_ns row ≡ ok (some held)
    → (held.row ≡ row) × ((t : ℤ) × (after_ns ≡ some t))
hold_of-row after_ns row held h = elim (if-cases row.holding _ _ _ h) [
  | inl (b, e) ↦ go row.stop_wall_ns row.cutoff_ms e
  | inr (b, e) ↦ cc
]
  where
    go :
        (stop cutoff : Option ℤ)
        → stamped_hold stop cutoff after_ns row ≡ ok (some held)
        → (held.row ≡ row) × ((t : ℤ) × (after_ns ≡ some t))
    go (some stop) (some cutoff) k = held_since-row after_ns stop cutoff row held k
    go (some stop) none k = cc
    go none cutoff k = cc

hold_row-split :
    (rows : List Row) (after_ns : Option ℤ) (held : Held)
    → hold_row rows after_ns ≡ ok (some held)
    → (before : List Row) × (behind : List Row) × (rows ≡ before ++ held.row ∷ behind)
      × ((t : ℤ) × (after_ns ≡ some t))
unfolding hold_row
hold_row-split [] after_ns held h = cc
hold_row-split (row ∷ rows) after_ns held h =
    go (hold_of after_ns row) refl h (hold_row-split rows after_ns held)
  where
    go :
        (first : Result (Option Held))
        → hold_of after_ns row ≡ first
        → or_else first (hold_row rows after_ns) ≡ ok (some held)
        → (hold_row rows after_ns ≡ ok (some held)
            → (before : List Row) × (behind : List Row) × (rows ≡ before ++ held.row ∷ behind)
              × ((t : ℤ) × (after_ns ≡ some t)))
        → (before : List Row) × (behind : List Row) × (row ∷ rows ≡ before ++ held.row ∷ behind)
          × ((t : ℤ) × (after_ns ≡ some t))
    go (err e) f k others = cc
    go (ok none) f k others =
        let (before, behind, e, timed) = others k in
        (row ∷ before, behind, ap (λ x. row ∷ x) e, timed)
    go (ok (some g)) f k others =
        let (same, timed) = hold_of-row after_ns row held (f ∙ k) in
        ([], rows, ap (λ x. x ∷ rows) (sym same), timed)

prompt_hold-eq :
    (stamp : ℤ) (rest : List Row) (shown : Option Held) (held : Held)
    → prompt_hold stamp rest shown ≡ ok (some held)
    → shown ≡ some held
prompt_hold-eq stamp rest none held k =
    elim (if-cases (ltb_ℤ (hold_limit stamp) (latest stamp rest)) _ _ _ k) [
      | inl (b, e) ↦ cc
      | inr (b, e) ↦ cc
    ]
prompt_hold-eq stamp rest (some g) held k =
    elim (if-cases (ltb_ℤ (hold_limit stamp) g.cutoff_ms) _ _ _ k) [
      | inl (b, e) ↦ cc
      | inr (b, e) ↦ ok-injective e
    ]

hold_evidence-split :
    (rows : List Row) (event : At) (after_ns : Option ℤ) (held : Held)
    → hold_evidence rows event after_ns ≡ ok (some held)
    → (before : List Row) × (behind : List Row) × (rows ≡ before ++ held.row ∷ behind)
      × ((t : ℤ) × (after_ns ≡ some t))
unfolding hold_evidence
hold_evidence-split rows event after_ns held h = go event.row.stamp_ms h
  where
    go :
        (stamp : Option ℤ)
        → elim stamp [
          | none ↦ err assertion_error
          | some stamp ↦ (do shown ← hold_row rows after_ns; prompt_hold stamp event.rest shown)
        ]
          ≡ ok (some held)
        → (before : List Row) × (behind : List Row) × (rows ≡ before ++ held.row ∷ behind)
          × ((t : ℤ) × (after_ns ≡ some t))
    go none k = cc
    go (some stamp) k =
        let (shown, hs, hp) = >>=-eq-ok (hold_row rows after_ns) _ k in
        hold_row-split rows after_ns held
          (hs ∙ ap ok (prompt_hold-eq stamp event.rest shown held hp))

pub hold_evidence-Shown :
    (rows : List Row) (event : At) (after_ns : Option ℤ) (held : Held)
    → hold_evidence rows event after_ns ≡ ok (some held)
    → (t : ℤ) × (after_ns ≡ some t) × Shown rows event t held
hold_evidence-Shown rows event none held h =
    let (_, _, _, (t, e)) = hold_evidence-split rows event none held h in cc
hold_evidence-Shown rows event (some t) held h =
    let (before, behind, its, _) = hold_evidence-split rows event (some t) held h in
    let (stamped, (stamp, its_stamp, prompt)) = hold_evidence-Stamped rows event t held h in
    (
      t,
      refl,
      record {
        before = before;
        behind = behind;
        its_rows = its;
        stamped = stamped;
        stamp = stamp;
        its_stamp = its_stamp;
        prompt = prompt;
      },
    )
