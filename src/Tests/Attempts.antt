-- ===== src/Tests/Attempts.antt =====
-- Probes of permit_attempts.py at concrete telemetry.
use haetae.Prelude.{
  ℕ, ◌≡◌, ◌≤◌, ◌↔◌, refl, String, Bool, true, false, none, some, List, [], ◌∷◌, if◌then◌else◌, ◌==◌,
}
use haetae.Prelude.Int.{pos, ◌+ℤ◌, ◌-ℤ◌}
use haetae.Python.{Result, ok, err, runner_delay}
use haetae.Attempts.{Row, Grant, GrantChain, base}
use haetae.Attempts.Hold.{At, first_where}
use haetae.Attempts.Verdict.{
  Witness, refusal, scan, look, look_at, first_refusal, before_refusal, conclude, classify,
  require_no_fail_closed,
}
use haetae.Attempts.Verdict.Refused.{Refused, refusal-Refused}
use haetae.Attempts.Verdict.Locks.{First}
use haetae.Attempts.Verdict.Accepted.{Explained, require_no_fail_closed-Explained}
use haetae.Attempts.Retries.{bounded_attempts}
use haetae.Attempts.Retries.Bounded.{PassedAt, bounded_attempts-iff-PassedAt}

abbrev row : ℕ → ℕ → String → Bool → Row
row published rejected reason holding = record {
  published_wall_ns = pos published;
  nonce = some "n";
  accepted = some (pos 5);
  rejected = pos rejected;
  reason = some reason;
  holding = holding;
  stop_wall_ns = none;
  cutoff_ms = none;
  stamp_ms = none;
}

abbrev lease_grant : Grant
lease_grant = record {
  kind = "command";
  seq = pos 1;
  sim_ns = pos 0;
  wall_ns = pos 0;
  sim_end_ns = pos 200000000;
  wall_end_ns = pos 200000000;
}

abbrev witness : Witness
witness = record {
  sent_wall_ns = pos 40000000;
  nonce_before = some "n";
  accepted_before = some (pos 5);
  rejected_before = pos 0;
  before_published_wall_ns = some (pos 30000000);
}

abbrev refused : Row
refused = row 50000000 1 "signature" true

abbrev rows : List Row
rows = row 30000000 0 "accepted" false ∷ refused ∷ []

refused_row :
    refusal base rows witness "signature" ("freshness" ∷ []) (some lease_grant)
    ≡ ok (some (refused, refused))
unfolding refusal scan look look_at before_refusal first_refusal conclude first_where ◌+ℤ◌
refused_row = refl

refusal-Refused_example : Refused base rows witness "signature" (some lease_grant) refused refused
refusal-Refused_example =
    refusal-Refused base rows witness "signature" ("freshness" ∷ []) (some lease_grant) refused
      refused refused_row

abbrev chain : GrantChain
chain = record { first = lease_grant; later = []; accepted_before = pos 4 }

abbrev late_rows : List Row
late_rows = row 30000000 0 "accepted" false ∷ row 60000000 1 "freshness" true ∷ []

late : require_no_fail_closed base late_rows (pos 30000000) (pos 0) chain ≡ err runner_delay
unfolding require_no_fail_closed classify first_where ◌-ℤ◌
late = refl

require_no_fail_closed-Explained_example :
    (event : At) × First (pos 30000000) (pos 0) late_rows event
    × Explained base late_rows (pos 0) chain event
require_no_fail_closed-Explained_example =
    require_no_fail_closed-Explained base late_rows (pos 30000000) (pos 0) chain late

-- The first run is late, the second passes.
abbrev late_body : ℕ → Result ℕ
late_body n = if n == 2 then ok 7 else err runner_delay

second_passes : (bounded_attempts "base" late_body 3 []).0 ≡ ok (7, 2)
unfolding bounded_attempts
second_passes = refl

bounded_attempts-iff-PassedAt_example :
    ((bounded_attempts "base" late_body 3 []).0 ≡ ok (7, 2)) ↔ (PassedAt late_body 1 7 2 × (2 ≤ 3))
bounded_attempts-iff-PassedAt_example = bounded_attempts-iff-PassedAt "base" late_body 3 [] 7 2
