-- ===== src/Bridge/Freshness.antt =====
-- The freshness tests of bridge.py against the clocks that they promise to hold.
use haetae.Prelude.{◌≡◌, ◌≢◌, ◌↔◌, ◌⊎◌, inl, inr, String, true, false, arith, refl, sym, ap, ◌∙◌}
use haetae.Prelude.Int.{ℤ, pos, ◌+ℤ◌, ◌≤ℤ◌, ◌<ℤ◌, ms, int_laws}
use haetae.Python.{Result, ok, err, expired_actuation, ◌>>=◌, >>=-eq-ok, fields_of, fields_of-cases}
use haetae.Python.Values.{Json, int, obj, find, or_empty}
use haetae.Bridge.{actuating, require_fresh_actuation, require_fresh_clocks}

-- `(step.get("status") or {}).get(key)`
abbrev pub status_field : String → Json → Result Json
status_field key step = do
  top ← fields_of step
  status ← fields_of (or_empty (find "status" top))
  ok (find key status)

-- The promise: the response is in time, its proposal has not expired, and the world it was judged
-- in is young enough by the end of the round trip.
pub record Fresh (step : Json) (elapsed now_ms world_max_age_ms max_response_ms : ℤ) : Type 0 where
  pub expires : ℤ
  pub world_age : ℤ
  pub has_expires : status_field "active_expires_ms" step ≡ ok (int expires)
  pub has_world_age : status_field "world_age_ms" step ≡ ok (int world_age)
  pub forward : pos 0 ≤ℤ elapsed
  pub in_time : elapsed <ℤ ms max_response_ms
  pub unexpired : now_ms <ℤ expires
  pub young : ms world_age +ℤ elapsed <ℤ ms world_max_age_ms

-- The two status fields that the clocks are compared with.
status_fields :
    (x y : String) (step : Json) (f : Json → Json → Result (Unit {0}))
    → (do
      top ← fields_of step
      status ← fields_of (or_empty (find "status" top))
      f (find x status) (find y status))
      ≡ (do a ← status_field x step; b ← status_field y step; f a b)
status_fields x y (obj top) f = elim (fields_of-cases (or_empty (find "status" top))) [
  | inl (fields, e) ↦ rw e
  | inr e ↦ rw e
]
status_fields x y _ f = refl

clocks-ok :
    (x y : Json) (e n w r : ℤ)
    → require_fresh_clocks x y e n w r ≡ ok tt
    → (expires age : ℤ) × (x ≡ int expires)
      × (y ≡ int age)
      × (pos 0 ≤ℤ e)
      × (e <ℤ ms r)
      × (n <ℤ expires)
      × (ms age +ℤ e <ℤ ms w)
clocks-ok (int x) (int y) e n w r h =
    (x, y, refl, refl, ground arith, ground arith, ground arith, ground arith)
clocks-ok _ _ e n w r h = cc

-- The result where both fields are integers, as the clocks stand.
clocks_expired :
    (x y e n w r : ℤ)
    → (require_fresh_clocks (int x) (int y) e n w r ≡ err expired_actuation)
      ↔ ((pos 0 ≤ℤ e) × (e <ℤ ms r) × ((x ≤ℤ n) ⊎ (ms w ≤ℤ ms y +ℤ e)))
clocks_expired x y e n w r = (λ h. ground arith, λ h. ground arith)

abbrev clocks_of : Json → ℤ → ℤ → ℤ → ℤ → Result (Unit {0})
clocks_of step elapsed now_ms w r = do
  expires ← status_field "active_expires_ms" step
  age ← status_field "world_age_ms" step
  require_fresh_clocks expires age elapsed now_ms w r

module _ (step : Json) (elapsed now_ms w r : ℤ) (moves : actuating step ≡ ok true) where
  require_fresh_actuation-eq :
      require_fresh_actuation step elapsed now_ms w r ≡ clocks_of step elapsed now_ms w r
  unfolding require_fresh_actuation
  require_fresh_actuation-eq = rw moves (
      status_fields "active_expires_ms" "world_age_ms" step
        (λ x y. require_fresh_clocks x y elapsed now_ms w r))

  -- An actuating step is accepted exactly when it is fresh.
  pub require_fresh_actuation-iff-Fresh :
      (require_fresh_actuation step elapsed now_ms w r ≡ ok tt) ↔ Fresh step elapsed now_ms w r
  require_fresh_actuation-iff-Fresh = (
    λ h.
        let (x, hx, rest) =
          >>=-eq-ok (status_field "active_expires_ms" step) _
            (sym require_fresh_actuation-eq ∙ h) in
        let (y, hy, clocks) = >>=-eq-ok (status_field "world_age_ms" step) _ rest in
        let (expires, age, ex, ey, forward, in_time, unexpired, young) =
          clocks-ok x y elapsed now_ms w r clocks in
        record {
          expires = expires;
          world_age = age;
          has_expires = hx ∙ ap ok ex;
          has_world_age = hy ∙ ap ok ey;
          forward = forward;
          in_time = in_time;
          unexpired = unexpired;
          young = young;
        },
    λ f.
        require_fresh_actuation-eq
        ∙ rw (f.has_expires, f.has_world_age)
            (ground (arith, f.forward, f.in_time, f.unexpired, f.young)),
  )

  -- A step that names an expiry and a world age loses its authority, and no more than that, exactly
  -- when its answer came in time and its proposal or its world has run out.
  pub require_fresh_actuation_expired :
      (expires world_age : ℤ)
      → status_field "active_expires_ms" step ≡ ok (int expires)
      → status_field "world_age_ms" step ≡ ok (int world_age)
      → (require_fresh_actuation step elapsed now_ms w r ≡ err expired_actuation) ↔ (
          (pos 0 ≤ℤ elapsed)
          × (elapsed <ℤ ms r)
          × ((expires ≤ℤ now_ms) ⊎ (ms w ≤ℤ ms world_age +ℤ elapsed)))
  require_fresh_actuation_expired x y hx hy =
      rw (require_fresh_actuation-eq, hx, hy) (clocks_expired x y elapsed now_ms w r)

-- A step that moves nothing is accepted at every clock reading.
pub require_fresh_actuation_still :
    (step : Json) (elapsed now_ms w r : ℤ)
    → actuating step ≡ ok false
    → require_fresh_actuation step elapsed now_ms w r ≡ ok tt
unfolding require_fresh_actuation
require_fresh_actuation_still step elapsed now_ms w r h = rw h

-- What was fresh at a later reading of both clocks was fresh at every earlier one.
Fresh-earlier :
    {step : Json} {elapsed now_ms w r : ℤ} (elapsed' now' : ℤ)
    → Fresh step elapsed now_ms w r
    → pos 0 ≤ℤ elapsed'
    → elapsed' ≤ℤ elapsed
    → now' ≤ℤ now_ms
    → Fresh step elapsed' now' w r
Fresh-earlier elapsed' now' f start le_elapsed le_now = record {
  expires = f.expires;
  world_age = f.world_age;
  has_expires = f.has_expires;
  has_world_age = f.has_world_age;
  forward = start;
  in_time = omega int_laws;
  unexpired = omega int_laws;
  young = omega int_laws;
}

-- A rejection for age is final: a step that was refused stays refused at every later reading.
pub require_fresh_actuation_later :
    (step : Json) (elapsed now_ms w r elapsed' now' : ℤ)
    → actuating step ≡ ok true
    → pos 0 ≤ℤ elapsed
    → elapsed ≤ℤ elapsed'
    → now_ms ≤ℤ now'
    → require_fresh_actuation step elapsed now_ms w r ≢ ok tt
    → require_fresh_actuation step elapsed' now' w r ≢ ok tt
require_fresh_actuation_later step e n w r e' n' moves start le_e le_n refused accepted = refused (
    (require_fresh_actuation-iff-Fresh step e n w r moves).1 (
      Fresh-earlier e n ((require_fresh_actuation-iff-Fresh step e' n' w r moves).0 accepted) start
        le_e le_n))
