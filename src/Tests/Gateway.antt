-- ===== src/Tests/Gateway.antt =====
-- The answers of the enforcement process, and how bridge.py takes them.
use haetae.Prelude.{
  ℕ, ◌^◌, ◌≡◌, ◌≢◌, ◌↔◌, ◌⊎◌, refl, arith, true, List, [], ◌∷◌, ◌++◌, codes, bytes_eq,
  if◌then◌else◌,
}
use haetae.Prelude.Int.{pos, ms, ◌+ℤ◌, ◌≤ℤ◌, ◌<ℤ◌}
use haetae.Python.{Result, ok, err, value_error, expired_actuation, overflow_error, at}
use haetae.Python.Double.{is_zero, is_finite}
use haetae.Python.Values.{
  Json, Fields, null, bool, int, float, str, arr, obj, nil, cons, end, field, find?, find_or, has,
}
use haetae.Bridge.{
  rejection_refused, reject_expired_actuation, lease_renewable, actuating, require_fresh_actuation,
}
use haetae.Bridge.Freshness.{
  status_field, Fresh, require_fresh_actuation-iff-Fresh, require_fresh_actuation_expired,
  require_fresh_actuation_later,
}
use haetae.Bridge.Lease.{Healthy, lease_renewable-Healthy, lease_renewable-require_fresh}
use haetae.Bridge.Rejection.{Stopped, reject_expired_actuation-Stopped}
use haetae.Bridge.Request.{
  Bridge, Codec, chunk, partition, receive, is_invalid_velocity, checked_answer, request,
}
use haetae.Bridge.Request.Answers.{Answered, request-Answered}

-- A quarter of a metre per second: 0x3fd0000000000000.
abbrev quarter : ℕ
quarter = 4598175219545276416

abbrev command : ℕ → Json
command linear = obj (field "linear" (float linear) (field "angular" (int (pos 0)) end))

abbrev status : Fields
status = field "mode" (str "normal") (
    field "armed" (arr (cons (str "vla") nil)) (
      field "active" null (
        field "recorder_ok" (bool true) (
          field "state_ok" (bool true) (
            field "world_age_ms" (int (pos 20))
              (field "active_expires_ms" (int (pos 1200)) end))))))

abbrev moving : Json
moving = obj (field "cmd" (command quarter) (field "status" (obj status) end))

moving-actuating : actuating moving ≡ ok true
unfolding actuating at find? find_or is_zero
moving-actuating = refl

-- 10 ms after the request, at 1010 ms: accepted.
moving_accepted :
    require_fresh_actuation moving (pos 10000000) (pos 1010) (pos 200) (pos 50) ≡ ok tt
unfolding require_fresh_actuation actuating at find? find_or is_zero ◌+ℤ◌
moving_accepted = refl

require_fresh_actuation-iff-Fresh_example :
    (require_fresh_actuation moving (pos 10000000) (pos 1010) (pos 200) (pos 50) ≡ ok tt)
    ↔ Fresh moving (pos 10000000) (pos 1010) (pos 200) (pos 50)
require_fresh_actuation-iff-Fresh_example =
    require_fresh_actuation-iff-Fresh moving (pos 10000000) (pos 1010) (pos 200) (pos 50)
      moving-actuating

expires_field : status_field "active_expires_ms" moving ≡ ok (int (pos 1200))
unfolding find? find_or
expires_field = refl

age_field : status_field "world_age_ms" moving ≡ ok (int (pos 20))
unfolding find? find_or
age_field = refl

require_fresh_actuation_expired_example :
    (require_fresh_actuation moving (pos 10000000) (pos 1200) (pos 200) (pos 50)
      ≡ err expired_actuation)
    ↔ ((pos 0 ≤ℤ pos 10000000)
        × (pos 10000000 <ℤ ms (pos 50))
        × ((pos 1200 ≤ℤ pos 1200) ⊎ (ms (pos 200) ≤ℤ ms (pos 20) +ℤ pos 10000000)))
require_fresh_actuation_expired_example =
    require_fresh_actuation_expired moving (pos 10000000) (pos 1200) (pos 200) (pos 50)
      moving-actuating (pos 1200) (pos 20) expires_field age_field

-- At its expiry the step is refused.
moving_refused :
    require_fresh_actuation moving (pos 10000000) (pos 1200) (pos 200) (pos 50)
    ≡ err expired_actuation
unfolding require_fresh_actuation actuating at find? find_or is_zero ◌+ℤ◌
moving_refused = refl

require_fresh_actuation_later_example :
    require_fresh_actuation moving (pos 20000000) (pos 1201) (pos 200) (pos 50) ≢ ok tt
require_fresh_actuation_later_example =
    require_fresh_actuation_later moving (pos 10000000) (pos 1200) (pos 200) (pos 50) (pos 20000000)
      (pos 1201) moving-actuating (omega arith) (omega arith) (omega arith) (λ h. cc moving_refused)

moving_renewable : lease_renewable moving (pos 10000000) (pos 200) (pos 50) ≡ ok true
unfolding lease_renewable find? find_or ◌+ℤ◌
moving_renewable = refl

lease_renewable-Healthy_example : Healthy moving (pos 10000000) (pos 200) (pos 50)
lease_renewable-Healthy_example =
    lease_renewable-Healthy moving (pos 10000000) (pos 200) (pos 50) moving_renewable

lease_renewable-require_fresh_example :
    require_fresh_actuation moving (pos 10000000) (pos 1010) (pos 200) (pos 50) ≡ ok tt
lease_renewable-require_fresh_example =
    lease_renewable-require_fresh moving (pos 10000000) (pos 1010) (pos 200) (pos 50) (pos 1200)
      moving_renewable moving-actuating expires_field (omega arith)

-- The answer to a rejection: zero velocity, nothing armed, no goal.
abbrev stopped : Json
stopped = obj (
    field "cmd" (obj (field "linear" (int (pos 0)) (field "angular" (int (pos 0)) end)))
      (field "status" (obj (field "armed" (arr nil) (field "active" null end))) end))

reject_expired_actuation_accepts :
    reject_expired_actuation (λ _. ok stopped) "late" (pos 1200) ≡ ok stopped
unfolding reject_expired_actuation rejection_refused at find? find_or has
reject_expired_actuation_accepts = refl

reject_expired_actuation-Stopped_example : Stopped stopped
reject_expired_actuation-Stopped_example =
    reject_expired_actuation-Stopped (λ _. ok stopped) "late" (pos 1200) stopped
      reject_expired_actuation_accepts

-- A codec for one line.
loads : List ℕ → Result Json
loads line = if bytes_eq line (codes "step") then ok moving else err value_error

abbrev codec : Codec
codec = record { dumps = λ _. ok (codes "tick"); loads = loads }

abbrev before : Bridge
before = record {
  buffer = codes "st";
  running = true;
  writable = true;
  reads = chunk (codes "ep" ++ 10 ∷ codes "ne") ∷ chunk (codes "xt") ∷ [];
}

abbrev after : Bridge
after = record before { buffer = codes "ne"; reads = chunk (codes "xt") ∷ [] }

step_answered : request codec null before ≡ (ok moving, after)
unfolding request receive partition checked_answer loads at find? is_finite
step_answered = refl

request-Answered_example : Answered codec before after moving
request-Answered_example = request-Answered codec null moving before after step_answered

-- A velocity that no float can hold is no bridge failure: `math.isfinite` raises OverflowError.
huge : is_invalid_velocity (int (pos (2 ^ 1024))) ≡ err overflow_error
unfolding is_invalid_velocity
huge = refl
