-- ===== src/Bridge/Lease.antt =====
-- `lease_renewable` of bridge.py, and how it agrees with `require_fresh_actuation`.
use haetae.Prelude.{◌≡◌, String, Bool, true, false, not, ◌&&◌, arith, refl, sym, ap, ◌∙◌}
use haetae.Prelude.Int.{ℤ, pos, ◌+ℤ◌, ◌≤ℤ◌, ◌<ℤ◌, ms}
use haetae.Python.{ok, >>=-eq-ok, fields_of}
use haetae.Python.Values.{
  Json, Fields, bool, int, str, find, find_or, truthy, or_empty, is_str, is_true,
}
use haetae.Bridge.{is_timely, is_renewable, lease_renewable, actuating, require_fresh_actuation}
use haetae.Bridge.Freshness.{status_field, require_fresh_actuation-iff-Fresh}
use text.Mathlib.TextEquality.{eq_iff}

-- A healthy round trip: normal mode, nothing being cancelled, a sound record and state, and clocks
-- within their bounds.
pub record Healthy (step : Json) (elapsed world_max_age_ms max_response_ms : ℤ) : Type 0 where
  pub world_age : ℤ
  pub cancelling : Json
  pub has_mode : status_field "mode" step ≡ ok (str "normal")
  pub has_recorder_ok : status_field "recorder_ok" step ≡ ok (bool true)
  pub has_state_ok : status_field "state_ok" step ≡ ok (bool true)
  pub has_cancelling : status_field "arm_cancelling" step ≡ ok cancelling
  pub not_cancelling : truthy cancelling ≡ false
  pub has_world_age : status_field "world_age_ms" step ≡ ok (int world_age)
  pub age_nonneg : pos 0 ≤ℤ world_age
  pub forward : pos 0 ≤ℤ elapsed
  pub in_time : elapsed <ℤ ms max_response_ms
  pub young : ms world_age +ℤ elapsed <ℤ ms world_max_age_ms

is_str-eq : (s : String) (v : Json) → is_str s v ≡ true → v ≡ str s
is_str-eq s (str t) h = ap str ((eq_iff t s).0 h)
is_str-eq s _ h = cc

is_true-eq : (v : Json) → is_true v ≡ true → v ≡ bool true
is_true-eq (bool b) h = ap bool h
is_true-eq _ h = cc

is_timely-eq :
    (v : Json) (e w r : ℤ)
    → is_timely v e w r ≡ true
    → (age : ℤ) × (v ≡ int age)
      × (pos 0 ≤ℤ age)
      × (pos 0 ≤ℤ e)
      × (e <ℤ ms r)
      × (ms age +ℤ e <ℤ ms w)
is_timely-eq (int age) e w r h = (age, refl, ground arith, ground arith, ground arith, ground arith)
is_timely-eq _ e w r h = cc

cancelling_false :
    (fields : Fields)
    → truthy (find_or "arm_cancelling" (bool false) fields) ≡ truthy (find "arm_cancelling" fields)
unfolding find_or
cancelling_false fields = ground arith

all_five :
    (a b c d e : Bool)
    → (a && not b && c && d && e) ≡ true
    → (a ≡ true) × (b ≡ false) × (c ≡ true) × (d ≡ true) × (e ≡ true)
all_five a b c d e h = ground arith

module _ (fields : Fields) (e w r : ℤ) where
  is_renewable_parts :
      is_renewable fields e w r ≡ true
      → (is_str "normal" (find "mode" fields) ≡ true)
        × (truthy (find_or "arm_cancelling" (bool false) fields) ≡ false)
        × (is_true (find "recorder_ok" fields) ≡ true)
        × (is_true (find "state_ok" fields) ≡ true)
        × (is_timely (find "world_age_ms" fields) e w r ≡ true)
  is_renewable_parts h = all_five _ _ _ _ _ h

status_field-eq :
    (key : String) (step : Json) (top status : Fields)
    → fields_of step ≡ ok top
    → fields_of (or_empty (find "status" top)) ≡ ok status
    → status_field key step ≡ ok (find key status)
status_field-eq key step top status p q = rw (p, q)

-- A controller lease is renewed only on a healthy round trip.
pub lease_renewable-Healthy :
    (step : Json) (elapsed w r : ℤ)
    → lease_renewable step elapsed w r ≡ ok true
    → Healthy step elapsed w r
unfolding lease_renewable
lease_renewable-Healthy step e w r h =
    let (top, p, h1) = >>=-eq-ok (fields_of step) _ h in
    let (status, q, h2) = >>=-eq-ok (fields_of (or_empty (find "status" top))) _ h1 in
    let (mode, cancel, recorder, state, timely) = is_renewable_parts status e w r (ground arith) in
    let (age, is_age, nonneg, forward, in_time, young) = is_timely-eq _ e w r timely in
    record {
      world_age = age;
      cancelling = find "arm_cancelling" status;
      has_mode = status_field-eq "mode" step top status p q ∙ ap ok (is_str-eq _ _ mode);
      has_recorder_ok =
          status_field-eq "recorder_ok" step top status p q ∙ ap ok (is_true-eq _ recorder);
      has_state_ok = status_field-eq "state_ok" step top status p q ∙ ap ok (is_true-eq _ state);
      has_cancelling = status_field-eq "arm_cancelling" step top status p q;
      not_cancelling = sym (cancelling_false status) ∙ cancel;
      has_world_age = status_field-eq "world_age_ms" step top status p q ∙ ap ok is_age;
      age_nonneg = nonneg;
      forward = forward;
      in_time = in_time;
      young = young;
    }

-- A renewable lease whose proposal has not expired is also a step that may drive: of the two
-- checks, `require_fresh_actuation` asks for the expiry and nothing else besides.
pub lease_renewable-require_fresh :
    (step : Json) (elapsed now_ms w r expires : ℤ)
    → lease_renewable step elapsed w r ≡ ok true
    → actuating step ≡ ok true
    → status_field "active_expires_ms" step ≡ ok (int expires)
    → now_ms <ℤ expires
    → require_fresh_actuation step elapsed now_ms w r ≡ ok tt
lease_renewable-require_fresh step e n w r x h moves has_expires unexpired =
    let v = lease_renewable-Healthy step e w r h in
    (require_fresh_actuation-iff-Fresh step e n w r moves).1 (record {
      expires = x;
      world_age = v.world_age;
      has_expires = has_expires;
      has_world_age = v.has_world_age;
      forward = v.forward;
      in_time = v.in_time;
      unexpired = unexpired;
      young = v.young;
    })
