-- ===== src/Bridge/Rejection.antt =====
-- What an accepted rejection guarantees (`reject_expired_actuation` of bridge.py).
use haetae.Prelude.{
  ◌≡◌, String, Bool, true, false, not, ◌&&◌, ◌||◌, inl, inr, Option-cases, arith, refl, ap, sym,
  if◌then◌else◌,
}
use haetae.Prelude.Int.{ℤ}
use haetae.Python.{
  Result, ok, bridge_failure, raise_if, ◌>>◌, >>=-eq-ok, ok-injective, fields_of, at,
}
use haetae.Python.Values.{
  Json, Fields, null, arr, nil, obj, end, field, find?, find, find_or, has, truthy, or_empty,
  is_str, is_null, eq_zero, is_empty_list,
}
use haetae.Bridge.{rejection_refused, reject_expired_actuation, actuating, executes}
use haetae.Bridge.Freshness.{status_field}

-- The state of the engine after a rejection that the bridge accepted.
pub record Stopped (step : Json) : Type 0 where
  pub still : actuating step ≡ ok false
  pub disarmed : status_field "armed" step ≡ ok (arr nil)
  pub idle : status_field "active" step ≡ ok null

is_null-eq : (v : Json) → is_null v ≡ true → v ≡ null
is_null-eq null h = refl
is_null-eq _ h = cc

is_empty_list-eq : (v : Json) → is_empty_list v ≡ true → v ≡ arr nil
is_empty_list-eq (arr nil) h = refl
is_empty_list-eq _ h = cc

-- A dict with some key is truthy.
has-truthy : (key : String) (fields : Fields) → has key fields ≡ true → truthy (obj fields) ≡ true
unfolding has find?
has-truthy key end h = cc
has-truthy key (field k v rest) h = refl

executes-false :
    (arm : Json) → (not (is_null arm) && not (is_str "cancel" arm)) ≡ false → executes arm ≡ false
executes-false (obj fields) h = cc
executes-false _ h = refl

-- A chain of refusals that let the answer through had each of its tests fail.
not_refused :
    (test : Bool) (rest : Result Bool)
    → (if test then ok true else rest) ≡ ok false
    → (test ≡ false) × (rest ≡ ok false)
not_refused true rest h = cc
not_refused false rest h = (refl, h)

no_status :
    (fields : Fields) (b : Bool)
    → (not (is_empty_list (find "armed" fields)) || not (has "active" fields) || b) ≡ false
    → truthy (obj fields) ≡ true
no_status fields b h = has-truthy "active" fields (ground arith)

fields_of-eq : (v : Json) (fields : Fields) → fields_of v ≡ ok fields → v ≡ obj fields
fields_of-eq (obj f) fields h = cc
fields_of-eq _ fields h = cc

no_fields : (fields : Fields) → obj fields ≡ obj end → truthy (obj fields) ≡ true → ⊥
no_fields end e h = cc
no_fields (field _ _ _) e h = cc

rejection_status :
    (top status : Fields)
    → fields_of (find_or "status" (obj end) top) ≡ ok status
    → truthy (obj status) ≡ true
    → fields_of (or_empty (find "status" top)) ≡ ok status
unfolding find_or
rejection_status top status h t = elim (Option-cases (find? "status" top)) [
  | inl missing ↦ absurd (no_fields status (ground arith) t)
  | inr (v, found) ↦ rw (found, find_or, fields_of-eq v status (rw (found, find_or) at h), t)
]

still :
    (top : Fields) (cmd linear angular : Json)
    → at "cmd" (obj top) ≡ ok cmd
    → at "linear" cmd ≡ ok linear
    → at "angular" cmd ≡ ok angular
    → eq_zero linear ≡ true
    → eq_zero angular ≡ true
    → executes (find "arm" top) ≡ false
    → actuating (obj top) ≡ ok false
unfolding actuating
still top cmd linear angular hc hl ha zl za x = rw (hc, hl, zl, ha, za, x)

rejection_refused-Stopped : (step : Json) → rejection_refused step ≡ ok false → Stopped step
unfolding rejection_refused
rejection_refused-Stopped (obj top) h =
    let (cmd, hc, h1) = >>=-eq-ok (at "cmd" (obj top)) _ h in
    let (linear, hl, h2) = >>=-eq-ok (at "linear" cmd) _ h1 in
    let (zl, h3) = not_refused (not (eq_zero linear)) _ h2 in
    let (angular, ha, h4) = >>=-eq-ok (at "angular" cmd) _ h3 in
    let (za, h5) = not_refused (not (eq_zero angular)) _ h4 in
    let (quiet, h6) =
      not_refused (not (is_null (find "arm" top)) && not (is_str "cancel" (find "arm" top))) _ h5 in
    let (status, hs, h7) = >>=-eq-ok (fields_of (find_or "status" (obj end) top)) _ h6 in
    let idle = ok-injective h7 in
    let hs' = rejection_status top status hs (no_status status _ idle) in
    record {
      still =
          still top cmd linear angular hc hl ha (ground arith) (ground arith)
            (executes-false (find "arm" top) quiet);
      disarmed = rw hs' (ap ok (is_empty_list-eq _ (ground arith)));
      idle = rw hs' (ap ok (is_null-eq _ (ground arith)));
    }
rejection_refused-Stopped _ h = cc

accepted :
    (answer step : Json) (refused : Bool)
    → (do raise_if refused bridge_failure; ok answer) ≡ ok step
    → rejection_refused answer ≡ ok refused
    → Stopped step
accepted answer step true h r = cc
accepted answer step false h r = rejection_refused-Stopped step (rw (sym (ok-injective h)) r)

-- An accepted rejection drives nothing, and leaves no source armed and no goal active.
pub reject_expired_actuation-Stopped :
    (request : Json → Result Json) (reason : String) (now_ms : ℤ) (step : Json)
    → reject_expired_actuation request reason now_ms ≡ ok step
    → Stopped step
unfolding reject_expired_actuation
reject_expired_actuation-Stopped request reason now_ms step h =
    let (answer, _, h1) = >>=-eq-ok (request _) _ h in
    let (refused, hr, h2) = >>=-eq-ok (rejection_refused answer) _ h1 in
    accepted answer step refused h2 hr
