-- ===== src/Gateway/Trace/Quiet.antt =====
-- What the answer to an accepted rejection makes the gate send.
use haetae.Prelude.{
  ℕ, ◌≡◌, refl, sym, ap, ◌∙◌, subst, inl, inr, arith, Bool, true, false, not, ◌&&◌, String, zero,
  if◌then◌else◌,
}
use haetae.Prelude.Int.{ℤ, pos}
use haetae.Python.{Result, ok, >>=-eq-ok, ok-injective, fields_of, at, ◌>>=◌}
use haetae.Python.Double.{is_zero}
use haetae.Python.Values.{
  Json, Fields, find, or_empty, arr, nil, eq_zero, int, float, bool, truthy, is_str, is_stop_action,
}
use haetae.Bridge.{executes, actuating}
use haetae.Bridge.Freshness.{status_field}
use haetae.Bridge.Rejection.{Stopped}
use haetae.Permits.Rearm.{explicit_rearm, is_rearmed}
use haetae.Gateway.{Env, Output, commanded, goal_sent}
use haetae.Gateway.Points.{cmd_field, double}
use haetae.Gateway.Trace.{Harmless}
use haetae.Gateway.Trace.Steps.{Names, From}

moves_off :
    (z : Bool) (rest : Result Bool)
    → (if not z then ok true else rest) ≡ ok false
    → (z ≡ true) × (rest ≡ ok false)
moves_off true rest h = (refl, h)
moves_off false rest h = cc

-- What still means, field by field.
still_fields :
    (step : Json)
    → actuating step ≡ ok false
    → (cmd l a : Json) × (top : Fields) × (at "cmd" step ≡ ok cmd)
      × (at "linear" cmd ≡ ok l)
      × (at "angular" cmd ≡ ok a)
      × (fields_of step ≡ ok top)
      × (eq_zero l ≡ true)
      × (eq_zero a ≡ true)
      × (executes (find "arm" top) ≡ false)
unfolding actuating
still_fields step h =
    let (cmd, hc, h1) = >>=-eq-ok (at "cmd" step) _ h in
    let (top, ht, h2) = >>=-eq-ok (fields_of step) _ h1 in
    let (l, hl, h3) = >>=-eq-ok (at "linear" cmd) _ h2 in
    let (zl, h4) = moves_off (eq_zero l) _ h3 in
    let (a, ha, h5) = >>=-eq-ok (at "angular" cmd) _ h4 in
    let moves = ok-injective h5 in (cmd, l, a, top, hc, hl, ha, ht, zl, ground arith, ground arith)

zero_double :
    (to_double : ℤ → Result ℕ) (v : Json) (bits : ℕ)
    → ((b : ℕ) → to_double (pos 0) ≡ ok b → is_zero b ≡ true)
    → eq_zero v ≡ true
    → double to_double v ≡ ok bits
    → is_zero bits ≡ true
unfolding double
zero_double to_double (float b) bits zero' z e = subst (λ n. is_zero n ≡ true) (ok-injective e) z
zero_double to_double (int (pos zero)) bits zero' z e = zero' bits e
zero_double to_double (bool false) bits zero' z e = zero' bits e
zero_double to_double _ bits zero' z e = cc

named_zero :
    (env : Env) (step : Json) (name : String) (cmd v : Json) (bits : ℕ)
    → ((b : ℕ) → env.to_double (pos 0) ≡ ok b → is_zero b ≡ true)
    → at "cmd" step ≡ ok cmd
    → at name cmd ≡ ok v
    → eq_zero v ≡ true
    → Names env step name bits
    → is_zero bits ≡ true
unfolding cmd_field
named_zero env step name cmd v bits zero' hc hv z (w, hw, hd) =
    let same : v ≡ w = ok-injective (rw (hc, hv) at hw) in
    zero_double env.to_double w bits zero' (subst (λ x. eq_zero x ≡ true) same z) hd

-- A step with no source armed rearms nothing.
disarmed_status : (status : Fields) → find "armed" status ≡ arr nil → is_rearmed status ≡ true → ⊥
disarmed_status status e h =
    let t : truthy (find "armed" status) ≡ true = ground arith in
    let f : truthy (find "armed" status) ≡ false = ap truthy e in cc

rearm_status :
    (b : Bool) (status : Result Fields)
    → (if not b then ok false else (do s ← status; ok (is_rearmed s))) ≡ ok true
    → (s : Fields) × (status ≡ ok s) × (is_rearmed s ≡ true)
rearm_status false status h = cc
rearm_status true status h = let (s, e, r) = >>=-eq-ok status _ h in (s, e, ok-injective r)

no_rearm :
    (step : Json) → status_field "armed" step ≡ ok (arr nil) → explicit_rearm step ≡ ok true → ⊥
unfolding explicit_rearm
no_rearm step d h =
    let (top, ht, h1) = >>=-eq-ok (fields_of step) _ h in
    let (_, _, h2) = >>=-eq-ok (fields_of (or_empty (find "outcome" top))) _ h1 in
    let (decision, _, h3) = >>=-eq-ok (fields_of (or_empty (find "decision" _))) _ h2 in
    let (status, hs, r) =
      rearm_status
        (is_stop_action (find "action" decision) && is_str "yun" (find "verdict" decision)) _ h3 in
    let (top', ht', d1) = >>=-eq-ok (fields_of step) _ d in
    let (status', hs', d2) = >>=-eq-ok (fields_of (or_empty (find "status" top'))) _ d1 in
    let same : top ≡ top' = ok-injective (sym ht ∙ ht') in
    let same' : status ≡ status' =
      ok-injective (sym hs ∙ ap (λ t. fields_of (or_empty (find "status" t))) same ∙ hs') in
    disarmed_status status (ap (find "armed") same' ∙ ok-injective d2) r

pub Stopped-Harmless :
    (env : Env) (step : Json)
    → Stopped step
    → ((bits : ℕ) → env.to_double (pos 0) ≡ ok bits → is_zero bits ≡ true)
    → (o : Output) → From env step o
    → Harmless o
Stopped-Harmless env step s zero' (commanded l a signed) (hl, ha, r) =
    let (cmd, v, w, top, hc, hv, hw, ht, zl, za, x) = still_fields step s.still in
    (
      named_zero env step "linear" cmd v l zero' hc hv zl hl,
      named_zero env step "angular" cmd w a zero' hc hw za ha,
      elim r [ inl h ↦ h | inr h ↦ absurd (no_rearm step s.disarmed h) ],
    )
Stopped-Harmless env step s zero' (goal_sent t frame) (top, ht, x) =
    let (cmd, v, w, top', hc, hv, hw, ht', zl, za, x') = still_fields step s.still in
    let same : top ≡ top' = ok-injective (sym ht ∙ ht') in cc
Stopped-Harmless env step s zero' _ f = absurd f
