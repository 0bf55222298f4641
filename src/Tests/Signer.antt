-- ===== src/Tests/Signer.antt =====
-- A run of the permit signer: two reports, and permits for both controllers.
use haetae.Prelude.{ℕ, ◌≡◌, ◌≢◌, refl, arith, some, List, [], ◌∷◌, codes, true, false}
use haetae.Prelude.Bytes.{is_hex}
use haetae.Prelude.Int.{pos}
use haetae.Python.{ok}
use haetae.Permits.Signer.{PermitSigner, Permit, base, set, reset, command, idle, issue, body}
use haetae.Permits.Signer.Body.{body-injective}
use haetae.Permits.Signer.Issue.{IsExact, issue-IsExact}
use haetae.Permits.Signer.History.{
  Call, signs, step, grants, run, IsSound, Increasing, run-Increasing, run-bodies_distinct,
}

abbrev nonce : List ℕ
nonce = codes "0123456789abcdef0123456789abcdef"

-- The controllers have reported one nonce each; 10 ms of backdate.
abbrev ready : PermitSigner
ready = record {
  sim_backdate_ns = 10000000;
  challenges = record { for_base = some nonce; for_arm = some nonce };
  sequence = record { for_base = 4; for_arm = 0 };
  active_arm = idle;
  admitted_arm = idle;
  goal_sequence = 0;
  admitted_goal_sequence = 0;
  admitted_arm_holding = true;
  admitted_arm_expired = false;
}

abbrev permit : Permit
permit = record {
  target = base;
  kind = command;
  challenge = nonce;
  sequence = 5;
  sim_ns = 990000000;
  wall_ns = 7000000000;
  sim_expires_ns = 1140000000;
  wall_expires_ns = 7150000000;
  digest = idle;
}

abbrev used : PermitSigner
used = record ready { sequence = record { for_base = 5; for_arm = 0 } }

issued_once :
    issue base command idle 1000000000 (pos 150000000) 7000000000 ready ≡ (ok permit, used)
unfolding issue
issued_once = refl

issue-IsExact_example :
    IsExact base command idle 1000000000 (pos 150000000) 7000000000 ready permit
    × (used ≡ record ready { sequence = set base 5 ready.sequence })
issue-IsExact_example =
    issue-IsExact base command idle 1000000000 (pos 150000000) 7000000000 ready permit used
      issued_once

permit-body :
    body permit
    ≡ codes
        "v1:base-command:0123456789abcdef0123456789abcdef:5:990000000:7000000000:1140000000:7150000000:0000000000000000000000000000000000000000000000000000000000000000"
unfolding body
permit-body = refl

body-injective_example : permit ≡ permit
body-injective_example = body-injective permit permit (omega arith) (omega arith) refl

-- Two calls: a command, and the lease behind it.
abbrev calls : List Call
calls =
    signs base command idle 1000000000 (pos 150000000) 7000000000
    ∷ signs base reset idle 1010000000 (pos 150000000) 7010000000
    ∷ []

abbrev permit' : Permit
permit' = record permit {
  kind = reset;
  sequence = 6;
  sim_ns = 1000000000;
  wall_ns = 7010000000;
  sim_expires_ns = 1150000000;
  wall_expires_ns = 7160000000;
}

two_permits : run ready calls ≡ permit ∷ permit' ∷ []
unfolding run step grants issue
two_permits = refl

run-Increasing_example : Increasing base 4 (run ready calls)
run-Increasing_example = run-Increasing base ready calls

ready-IsSound : IsSound ready
unfolding is_hex
ready-IsSound = record { base_challenge = (refl, refl); arm_challenge = (refl, refl) }

run-bodies_distinct_example : body permit ≢ body permit'
run-bodies_distinct_example =
    run-bodies_distinct ready calls [] [] [] permit permit' ready-IsSound two_permits
