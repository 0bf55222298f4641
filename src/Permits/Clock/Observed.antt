-- ===== src/Permits/Clock/Observed.antt =====
-- What `AcceptedWorldClock.observe` takes over of a step.
use haetae.Prelude.{
  ℕ, ◌*◌, ◌≤◌, ◌<◌, ◌≡◌, refl, sym, ap, ◌∙◌, subst, inl, inr, Bool-cases, Option-cases, String,
  Bool, true, false, none, some, arith, ltb, if◌then◌else◌,
}
use haetae.Prelude.Int.{ℤ, pos, negsuc}
use haetae.Python.{ok, >>=-eq-ok, ok-injective, fields_of}
use haetae.Python.Values.{
  Json, Fields, null, bool, int, float, str, arr, obj, end, field, find?, find_or, find, truthy,
  or_empty,
}
use haetae.Permits.Clock.{AcceptedWorldClock, advances, accept, observe_stamp, observe}

-- The entry of a dict; `null` where there is none.
abbrev entry : String → Json → Json
entry key (obj fields) = find key fields
entry key _ = null

-- The stamp of the world that a step reports: `outcome.world_updated.stamp_ms`.
abbrev pub stamp_of : Json → Json
stamp_of step = entry "stamp_ms" (entry "world_updated" (entry "outcome" step))

-- What an observation at a wall time makes of the clock, by the stamp of the step in milliseconds.
pub data Observes (clock : AcceptedWorldClock) (wall_ns : ℕ)
    : Json → AcceptedWorldClock → Type 0 where
  first :
      (n : ℕ)
      → clock.stamp_ns ≡ none
      → Observes clock wall_ns
          (int (pos n))
          (record { stamp_ns = some (n * 1000000); wall_ns = some wall_ns })
  later :
      (n last : ℕ)
      → clock.stamp_ns ≡ some last
      → last < n * 1000000
      → Observes clock wall_ns
          (int (pos n))
          (record { stamp_ns = some (n * 1000000); wall_ns = some wall_ns })
  old :
      (n last : ℕ)
      → clock.stamp_ns ≡ some last
      → n * 1000000 ≤ last
      → Observes clock wall_ns (int (pos n)) clock
  negative : (n : ℕ) → Observes clock wall_ns (int (negsuc n)) clock
  no_int : (v : Json) → ((z : ℤ) → v ≡ int z → ⊥) → Observes clock wall_ns v clock

decided :
    (clock : AcceptedWorldClock) (n wall : ℕ) (b : Bool)
    → advances clock.stamp_ns (n * 1000000) ≡ b
    → Observes clock wall
        (int (pos n))
        (if b then record { stamp_ns = some (n * 1000000); wall_ns = some wall } else clock)
    → Observes clock wall (int (pos n)) (accept clock n wall)
decided clock n wall b e = subst (Observes clock wall (int (pos n))) (
    ap (λ x. if x then record { stamp_ns = some (n * 1000000); wall_ns = some wall } else clock)
      (sym e))

accept-Observes :
    (clock : AcceptedWorldClock) (n wall : ℕ)
    → Observes clock wall (int (pos n)) (accept clock n wall)
accept-Observes clock n wall = elim (Option-cases clock.stamp_ns) [
  | inl h ↦ decided clock n wall true (ap (λ s. advances s (n * 1000000)) h) (first n h)
  | inr (last, h) ↦ elim (Bool-cases (ltb last (n * 1000000))) [
    | inl e ↦
        decided clock n wall true (ap (λ s. advances s (n * 1000000)) h ∙ e)
          (later n last h (ground arith))
    | inr e ↦
        decided clock n wall false (ap (λ s. advances s (n * 1000000)) h ∙ e)
          (old n last h (ground arith))
  ]
]

observe_stamp-Observes :
    (clock : AcceptedWorldClock) (v : Json) (wall : ℕ)
    → Observes clock wall v (observe_stamp clock v wall)
observe_stamp-Observes clock (int (pos n)) wall = accept-Observes clock n wall
observe_stamp-Observes clock (int (negsuc n)) wall = negative n
observe_stamp-Observes clock null wall = no_int null (λ z e. cc)
observe_stamp-Observes clock (bool b) wall = no_int (bool b) (λ z e. cc)
observe_stamp-Observes clock (float x) wall = no_int (float x) (λ z e. cc)
observe_stamp-Observes clock (str s) wall = no_int (str s) (λ z e. cc)
observe_stamp-Observes clock (arr l) wall = no_int (arr l) (λ z e. cc)
observe_stamp-Observes clock (obj f) wall = no_int (obj f) (λ z e. cc)

top_entry :
    (key : String) (v : Json) (fields : Fields)
    → fields_of v ≡ ok fields
    → find key fields ≡ entry key v
top_entry key (obj f) fields h = rw (sym (ok-injective h)) refl
top_entry key _ fields h = cc

falsy_entry : (key : String) (v : Json) → truthy v ≡ false → entry key v ≡ null
unfolding find? find_or
falsy_entry key (obj end) h = refl
falsy_entry key (obj (field _ _ _)) h = cc
falsy_entry key _ h = refl

end_null : (key : String) → find key end ≡ null
unfolding find? find_or
end_null key = refl

find-entry :
    (key : String) (v : Json) (fields : Fields)
    → fields_of (or_empty v) ≡ ok fields
    → find key fields ≡ entry key v
find-entry key v fields h = elim (Bool-cases (truthy v)) [
  | inl e ↦ top_entry key v fields (rw e at h)
  | inr e ↦
      ap (find key) (sym (ok-injective (rw e at h))) ∙ end_null key ∙ sym (falsy_entry key v e)
]

-- An observation that returns goes by the stamp of the world that the step reports: where it is a
-- number of milliseconds and no world was accepted or the last one is strictly earlier, the clock
-- becomes that stamp with the wall time at which the request began; a stamp that is not later, a
-- negative one or none leaves the clock alone.
pub observe-Observes :
    (clock clock' : AcceptedWorldClock) (step : Json) (request_wall_ns : ℕ)
    → observe clock step request_wall_ns ≡ ok clock'
    → Observes clock request_wall_ns (stamp_of step) clock'
unfolding observe
observe-Observes clock clock' step wall h =
    let (top, a, h1) = >>=-eq-ok (fields_of step) _ h in
    let (outcome, b, h2) = >>=-eq-ok (fields_of (or_empty (find "outcome" top))) _ h1 in
    let (updated, c, h3) = >>=-eq-ok (fields_of (or_empty (find "world_updated" outcome))) _ h2 in
    let same : find "stamp_ms" updated ≡ stamp_of step =
      find-entry "stamp_ms" _ updated c
      ∙ ap (entry "stamp_ms") (
          find-entry "world_updated" _ outcome b
          ∙ ap (entry "world_updated") (top_entry "outcome" step top a)) in
    subst (λ v. Observes clock wall v clock') same
      (subst (Observes clock wall (find "stamp_ms" updated)) (ok-injective h3)
        (observe_stamp-Observes clock (find "stamp_ms" updated) wall))
