-- ===== src/Attempts/Retries.antt =====
-- `bounded_attempts`, the context managers and `AttemptLog` of permit_attempts.py. The n-th run of
-- a case's body is entry n of a function, since each begins with its own reset.
pub mod Bounded
use haetae.Prelude.{
  ℕ, ◌+◌, zero, suc, String, Bool, true, false, Option, none, some, List, [], ◌∷◌, ltb,
  if◌then◌else◌,
}
use haetae.Python.{Error, Result, ok, err, assertion_error, runner_delay, ◌>>=◌, ◌>>◌}
use haetae.Attempts.Verdict.{Seen}
use text.Mathlib.Text.{◌==◌ as str_eq}

pub data Outcome : Type 0 where
  passed inconclusive failed : Outcome

-- An entry of the log.
pub record Attempt : Type 0 where
  pub case' : String
  pub attempt : ℕ
  pub outcome : Outcome

abbrev pub is_delay : Error → Bool
is_delay runner_delay = true
is_delay _ = false

-- `PERMIT_MAX_ATTEMPTS`
abbrev pub max_attempts : ℕ
max_attempts = 3

abbrev entry : String → ℕ → Outcome → Attempt
entry case' attempt outcome = record { case' = case'; attempt = attempt; outcome = outcome }

module _ {Row : Type 0} (case' : String) (body : ℕ → Result Row) (attempts : ℕ) where
  -- What an attempt ends with, and the entries that it leaves in front of the log.
  abbrev pub end_attempt :
      ℕ
      → (List Attempt → Result (Row × ℕ) × List Attempt)
      → List Attempt
      → Result Row
      → Result (Row × ℕ) × List Attempt
  end_attempt attempt next log (ok row) = (ok (row, attempt), entry case' attempt passed ∷ log)
  end_attempt attempt next log (err e) =
      if is_delay e
      then next (entry case' attempt inconclusive ∷ log)
      else (err e, entry case' attempt failed ∷ log)

  -- The attempts from one on, of which some are left.
  unfoldable pub attempts_from : ℕ → ℕ → List Attempt → Result (Row × ℕ) × List Attempt
  attempts_from zero attempt log = (err assertion_error, entry case' attempts failed ∷ log)
  attempts_from (suc left) attempt log =
      end_attempt attempt (attempts_from left (suc attempt)) log (body attempt)

  unfoldable pub bounded_attempts : List Attempt → Result (Row × ℕ) × List Attempt
  unfolding attempts_from
  bounded_attempts log = attempts_from attempts 1 log

-- `motion_checked`, `fail_closed_settled` and `goal_counted`: a check behind a delay, before it
-- leaves. The check returns, or it raises in the delay's place.
abbrev pub checked_delay {ℓ} : {Value : Type ℓ} → Result (Unit {0}) → Result Value → Result Value
checked_delay check (ok value) = ok value
checked_delay check (err e) = if is_delay e then check >> err e else err e

-- A case of `payload`.
pub record Case : Type 0 where
  pub attempts : ℕ
  pub inconclusive : ℕ
  pub outcome : Option Outcome

abbrev one_if_inconclusive : Outcome → ℕ
one_if_inconclusive inconclusive = 1
one_if_inconclusive _ = 0

abbrev pub counted : Attempt → Case → Case
counted row c = record {
  attempts = if ltb c.attempts row.attempt then row.attempt else c.attempts;
  inconclusive = c.inconclusive + one_if_inconclusive row.outcome;
  outcome = some row.outcome;
}

-- The entry of a case in `payload`, of a log with its last entry in front.
unfoldable pub case_of : String → List Attempt → Case
case_of name [] = record { attempts = 0; inconclusive = 0; outcome = none }
case_of name (row ∷ rows) =
    let earlier = case_of name rows in
    if str_eq row.case' name then counted row earlier else earlier
