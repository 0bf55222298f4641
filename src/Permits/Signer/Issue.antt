-- ===== src/Permits/Signer/Issue.antt =====
-- One call of `sign`: what the permit grants, and what the signer keeps of it.
use haetae.Prelude.{
  ℕ, ◌+◌, ◌≤◌, ◌<◌, ◌≡◌, refl, sym, ap, ◌∙◌, ◌⊎◌, arith, some, List, ◌∷◌, ◌++◌, inl, inr,
  Option-cases,
}
use haetae.Prelude.Int.{ℤ, pos, negsuc, pos_part}
use haetae.Python.{Error, Result, ok, err, value_error, ok-injective, err-injective, ok-ne-err}
use haetae.Permits.Signer.{
  Target, Kind, PermitSigner, Permit, get, set, max_lease_ns, body, issued, lease_of, issue, signed,
  sign,
}

-- A permit answers the controller's last challenge with a new number, and its lease, one length by
-- both clocks, ends no later than the authority that was asked for.
pub record IsExact (target : Target) (kind : Kind) (digest : List ℕ) (sim_ns : ℕ) (remaining_ns : ℤ)
    (wall_ns : ℕ) (s : PermitSigner) (p : Permit) : Type 0 where
  pub its_target : p.target ≡ target
  pub its_kind : p.kind ≡ kind
  pub its_digest : p.digest ≡ digest
  pub current : get target s.challenges ≡ some p.challenge
  pub next : p.sequence ≡ get target s.sequence + 1
  pub sim_origin : p.sim_ns ≤ sim_ns
  pub wall_origin : p.wall_ns ≡ wall_ns
  pub positive : p.sim_ns < p.sim_expires_ns
  pub bounded : p.sim_expires_ns ≤ p.sim_ns + max_lease_ns
  pub same_length : p.sim_expires_ns + p.wall_ns ≡ p.wall_expires_ns + p.sim_ns
  pub sim_deadline : p.sim_expires_ns ≤ sim_ns + pos_part remaining_ns
  pub wall_deadline : p.wall_expires_ns ≤ wall_ns + pos_part remaining_ns

lease_of_bounds :
    (remaining_ns : ℤ) (lease_ns : ℕ)
    → lease_of remaining_ns ≡ some lease_ns
    → (0 < lease_ns) × (lease_ns ≤ max_lease_ns) × (lease_ns ≤ pos_part remaining_ns)
lease_of_bounds (pos r) l h = ground arith
lease_of_bounds (negsuc r) l h = cc

issued-IsExact :
    (target : Target) (kind : Kind) (digest challenge : List ℕ) (sim_ns lease_ns wall_ns : ℕ)
    (remaining_ns : ℤ) (s : PermitSigner)
    → get target s.challenges ≡ some challenge
    → lease_of remaining_ns ≡ some lease_ns
    → IsExact target kind digest sim_ns remaining_ns wall_ns s
        (issued target kind digest challenge sim_ns lease_ns wall_ns s).0
issued-IsExact target kind digest challenge sim_ns lease_ns wall_ns remaining_ns s c l =
    let (positive, most, within) = lease_of_bounds remaining_ns lease_ns l in
    record {
      its_target = refl;
      its_kind = refl;
      its_digest = refl;
      current = c;
      next = refl;
      sim_origin = omega arith;
      wall_origin = refl;
      positive = omega arith;
      bounded = omega arith;
      same_length = omega arith;
      sim_deadline = omega arith;
      wall_deadline = omega arith;
    }

-- The two ways in which a call ends.
abbrev Granted :
    Target → Kind → List ℕ → ℕ → ℤ → ℕ → PermitSigner → Result Permit × PermitSigner → Type 0
Granted target kind digest sim_ns remaining_ns wall_ns s r =
    (challenge : List ℕ) × (lease_ns : ℕ) × (get target s.challenges ≡ some challenge)
    × (lease_of remaining_ns ≡ some lease_ns)
    × (r.0 ≡ ok (issued target kind digest challenge sim_ns lease_ns wall_ns s).0)
    × (r.1 ≡ (issued target kind digest challenge sim_ns lease_ns wall_ns s).1)

module _ (target : Target) (kind : Kind) (digest : List ℕ) (sim_ns : ℕ) (remaining_ns : ℤ)
    (wall_ns : ℕ) (s : PermitSigner) where
  pub issue_cases :
      ((issue target kind digest sim_ns remaining_ns wall_ns s).0 ≡ err value_error)
        × ((issue target kind digest sim_ns remaining_ns wall_ns s).1 ≡ s)
      ⊎ Granted target kind digest sim_ns remaining_ns wall_ns s
          (issue target kind digest sim_ns remaining_ns wall_ns s)
  unfolding issue
  issue_cases = elim (Option-cases (get target s.challenges)) [
    | inl absent ↦ inl (rw (absent, issue) refl, rw (absent, issue) refl)
    | inr (challenge, c) ↦ elim (Option-cases (lease_of remaining_ns)) [
      | inl expired ↦ inl (rw (c, expired, issue) refl, rw (c, expired, issue) refl)
      | inr (lease_ns, l) ↦
          inr (challenge, lease_ns, c, l, rw (c, l, issue) refl, rw (c, l, issue) refl)
    ]
  ]

  -- Where `issue` returns, the permit answers the target's last challenge with the next sequence
  -- number and the asked kind and digest, its lease is positive, of one length by both clocks, at
  -- most 200 ms and ends by both clocks no later than the authority that was asked for; the call
  -- counts the permit for its target and changes nothing else of the signer.
  pub issue-IsExact :
      (p : Permit) (s' : PermitSigner)
      → issue target kind digest sim_ns remaining_ns wall_ns s ≡ (ok p, s')
      → IsExact target kind digest sim_ns remaining_ns wall_ns s p
        × (s' ≡ record s { sequence = set target p.sequence s.sequence })
  issue-IsExact p s' h = elim issue_cases [
    | inl (bad, _) ↦ absurd (ok-ne-err (sym (ap (λ r. r.0) h) ∙ bad))
    | inr (challenge, lease_ns, c, l, r, r') ↦
        let e = ok-injective (sym (ap (λ r. r.0) h) ∙ r) in
        (
          rw e (
              issued-IsExact target kind digest challenge sim_ns lease_ns wall_ns remaining_ns s c
                l),
          sym (ap (λ r. r.1) h) ∙ r' ∙ rw e refl,
        )
  ]

  pub issue_err :
      (e : Error)
      → (issue target kind digest sim_ns remaining_ns wall_ns s).0 ≡ err e
      → (issue target kind digest sim_ns remaining_ns wall_ns s).1 ≡ s
  issue_err e h = elim issue_cases [
    | inl (_, same) ↦ same
    | inr (_, _, _, _, r, _) ↦ absurd (ok-ne-err (sym r ∙ h))
  ]

signed-ok :
    (sign_hex : List ℕ → List ℕ) (r : Result Permit × PermitSigner) (p : Permit)
    → r.0 ≡ ok p
    → (signed sign_hex r).0 ≡ ok (body p ++ b':' ∷ sign_hex (body p))
signed-ok sign_hex (ok q, s) p h =
    ap (λ x. ok (body x ++ b':' ∷ sign_hex (body x))) (ok-injective h)
signed-ok sign_hex (err e, s) p h = cc

signed-err :
    (sign_hex : List ℕ → List ℕ) (r : Result Permit × PermitSigner) (e : Error)
    → r.0 ≡ err e
    → (signed sign_hex r).0 ≡ err e
signed-err sign_hex (ok q, s) e h = cc
signed-err sign_hex (err f, s) e h = ap err (err-injective h)

-- A frame that `sign` returns is a permit's body and its signature.
pub sign-issued :
    (sign_hex : List ℕ → List ℕ) (target : Target) (kind : Kind) (digest : List ℕ) (sim_ns : ℕ)
    (remaining_ns : ℤ) (wall_ns : ℕ) (s : PermitSigner) (frame : List ℕ)
    → (sign sign_hex target kind digest sim_ns remaining_ns wall_ns s).0 ≡ ok frame
    → (challenge : List ℕ) × (lease_ns : ℕ) × (lease_of remaining_ns ≡ some lease_ns)
      × (frame
          ≡ body (issued target kind digest challenge sim_ns lease_ns wall_ns s).0
            ++ b':'
              ∷ sign_hex (body (issued target kind digest challenge sim_ns lease_ns wall_ns s).0))
unfolding sign
sign-issued sign_hex target kind digest sim_ns remaining_ns wall_ns s frame h =
    elim (issue_cases target kind digest sim_ns remaining_ns wall_ns s) [
      | inl (bad, _) ↦ absurd (ok-ne-err (sym h ∙ signed-err sign_hex _ value_error bad))
      | inr (challenge, lease_ns, _, l, r, _) ↦
          (challenge, lease_ns, l, ok-injective (sym h ∙ signed-ok sign_hex _ _ r))
    ]
