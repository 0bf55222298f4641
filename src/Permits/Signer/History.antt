-- ===== src/Permits/Signer/History.antt =====
-- Any run of the signer: what the controllers report and what the gateway asks for, in any order.
use haetae.Prelude.{
  ℕ, ◌<◌, ◌≡◌, ◌≢◌, refl, subst, sym, ap, ◌⊎◌, inl, inr, arith, Option, some, List, [], ◌∷◌, ◌++◌,
  All,
}
use haetae.Prelude.Int.{ℤ}
use haetae.Python.{Result, ok, err}
use haetae.Python.Values.{Json}
use haetae.Permits.Signer.{
  Target, Kind, PermitSigner, Permit, PerTarget, base, arm, get, set, observe, issued, issue, body,
}
use haetae.Permits.Signer.Observe.{HexChallenge, observe_cases}
use haetae.Permits.Signer.Body.{Free-hex, body-injective}
use haetae.Permits.Signer.Issue.{issue_cases}

pub data Call : Type 0 where
  observes : Target → Json → Call
  signs : Target → Kind → List ℕ → ℕ → ℤ → ℕ → Call

abbrev granted : Result Permit → List Permit
granted (ok p) = p ∷ []
granted (err e) = []

unfoldable pub step : PermitSigner → Call → PermitSigner
step s (observes target value) = (observe target value s).1
step s (signs target kind digest sim remaining wall) =
    (issue target kind digest sim remaining wall s).1

unfoldable pub grants : PermitSigner → Call → List Permit
grants s (observes target value) = []
grants s (signs target kind digest sim remaining wall) =
    granted (issue target kind digest sim remaining wall s).0

-- The permits of a run, oldest first. A call that raises grants none.
unfoldable pub run : PermitSigner → List Call → List Permit
run s [] = []
run s (c ∷ cs) = grants s c ++ run (step s c) cs

-- The permits for one target carry ever larger numbers, all above the bound.
abbrev pub Increasing : Target → ℕ → List Permit → Type 0
Increasing t bound [] = Unit
Increasing t bound (p ∷ ps) =
    ((p.target ≡ t) × (bound < p.sequence) × Increasing t p.sequence ps)
    ⊎ ((p.target ≢ t) × Increasing t bound ps)

issued-Increasing :
    (t u : Target) (kind : Kind) (digest challenge : List ℕ) (sim lease wall : ℕ) (s : PermitSigner)
    (ps : List Permit)
    → Increasing t (get t (issued u kind digest challenge sim lease wall s).1.sequence) ps
    → Increasing t (get t s.sequence) ((issued u kind digest challenge sim lease wall s).0 ∷ ps)
issued-Increasing base base kind d c sim l w s ps h = inl (refl, omega arith, h)
issued-Increasing base arm kind d c sim l w s ps h = inr ((λ e. cc), h)
issued-Increasing arm base kind d c sim l w s ps h = inr ((λ e. cc), h)
issued-Increasing arm arm kind d c sim l w s ps h = inl (refl, omega arith, h)

Increasing-from :
    (t : Target) (m n : PerTarget ℕ) (ps : List Permit)
    → m ≡ n
    → Increasing t (get t m) ps
    → Increasing t (get t n) ps
Increasing-from t m n ps e = subst (λ k. Increasing t (get t k) ps) e

-- Whatever the calls, the permits of a run are numbered upwards for each target.
pub run-Increasing :
    (t : Target) (s : PermitSigner) (cs : List Call) → Increasing t (get t s.sequence) (run s cs)
unfolding run step grants
run-Increasing t s [] = tt
run-Increasing t s (observes u value ∷ cs) =
    let s' = (observe u value s).1 in
    Increasing-from t s'.sequence s.sequence (run s' cs) (observe_cases u value s).0
      (run-Increasing t s' cs)
run-Increasing t s (signs u kind digest sim remaining wall ∷ cs) =
    let s' = (issue u kind digest sim remaining wall s).1 in
    elim (issue_cases u kind digest sim remaining wall s) [
      | inl (bad, same) ↦ rw bad (
          Increasing-from t s'.sequence s.sequence (run s' cs) (ap (λ x. x.sequence) same)
            (run-Increasing t s' cs))
      | inr (challenge, lease, _, _, r, r') ↦ rw r (
          issued-Increasing t u kind digest challenge sim lease wall s (run s' cs) (
            Increasing-from t s'.sequence _ (run s' cs) (ap (λ x. x.sequence) r')
              (run-Increasing t s' cs)))
    ]

pub record IsSound (s : PermitSigner) : Type 0 where
  pub base_challenge : HexChallenge s.challenges.for_base
  pub arm_challenge : HexChallenge s.challenges.for_arm

abbrev Sound : PerTarget (Option (List ℕ)) → Type 0
Sound m = HexChallenge m.for_base × HexChallenge m.for_arm

Sound-set :
    (t : Target) (nonce : List ℕ) (m : PerTarget (Option (List ℕ)))
    → HexChallenge (some nonce)
    → Sound m
    → Sound (set t (some nonce) m)
Sound-set base nonce m h v = (h, v.1)
Sound-set arm nonce m h v = (v.0, h)

Sound-get :
    (t : Target) (m : PerTarget (Option (List ℕ))) (nonce : List ℕ)
    → get t m ≡ some nonce
    → Sound m
    → HexChallenge (some nonce)
Sound-get base m nonce e v = subst HexChallenge e v.0
Sound-get arm m nonce e v = subst HexChallenge e v.1

observe-Sound :
    (t : Target) (value : Json) (s : PermitSigner)
    → Sound s.challenges
    → Sound (observe t value s).1.challenges
observe-Sound t value s v = elim (observe_cases t value s).1 [
  | inl same ↦ subst Sound (sym same) v
  | inr (nonce, h, e) ↦ subst Sound (sym e) (Sound-set t nonce s.challenges h v)
]

run-Hex :
    (s : PermitSigner) (cs : List Call)
    → Sound s.challenges
    → All (λ p. HexChallenge (some p.challenge)) (run s cs)
unfolding run step grants
run-Hex s [] v = tt
run-Hex s (observes t value ∷ cs) v = run-Hex (observe t value s).1 cs (observe-Sound t value s v)
run-Hex s (signs u kind digest sim remaining wall ∷ cs) v =
    elim (issue_cases u kind digest sim remaining wall s) [
      | inl (bad, same) ↦ rw bad (
          run-Hex (issue u kind digest sim remaining wall s).1 cs
            (subst Sound (sym (ap (λ x. x.challenges) same)) v))
      | inr (challenge, lease, c, _, r, r') ↦ rw r (
        Sound-get u s.challenges challenge c v,
        run-Hex (issue u kind digest sim remaining wall s).1 cs
            (subst Sound (sym (ap (λ x. x.challenges) r')) v),
      )
    ]

Increasing-lt :
    (t : Target) (b : ℕ) (ys : List Permit) (q : Permit) (zs : List Permit)
    → Increasing t b (ys ++ q ∷ zs)
    → q.target ≡ t
    → b < q.sequence
Increasing-lt t b [] q zs (inl (_, h, _)) e = h
Increasing-lt t b [] q zs (inr (other, _)) e = absurd (other e)
Increasing-lt t b (y ∷ ys) q zs (inl (_, h, rest)) e =
    omega (arith, Increasing-lt t y.sequence ys q zs rest e)
Increasing-lt t b (y ∷ ys) q zs (inr (_, rest)) e = Increasing-lt t b ys q zs rest e

Increasing-behind :
    (t : Target) (b : ℕ) (xs : List Permit) (p : Permit) (rest : List Permit)
    → Increasing t b (xs ++ p ∷ rest)
    → p.target ≡ t
    → Increasing t p.sequence rest
Increasing-behind t b [] p rest (inl (_, _, h)) e = h
Increasing-behind t b [] p rest (inr (other, _)) e = absurd (other e)
Increasing-behind t b (x ∷ xs) p rest (inl (_, _, h)) e =
    Increasing-behind t x.sequence xs p rest h e
Increasing-behind t b (x ∷ xs) p rest (inr (_, h)) e = Increasing-behind t b xs p rest h e

All-at :
    (P : Permit → Type 0) (xs : List Permit) (p : Permit) (rest : List Permit)
    → All P (xs ++ p ∷ rest)
    → P p × All P rest
All-at P [] p rest h = h
All-at P (x ∷ xs) p rest h = All-at P xs p rest h.1

-- No two permits of a run have one text: a signature over one of them is good for that one only.
pub run-bodies_distinct :
    (s : PermitSigner) (cs : List Call) (xs ys zs : List Permit) (p q : Permit)
    → IsSound s
    → run s cs ≡ xs ++ p ∷ (ys ++ q ∷ zs)
    → body p ≢ body q
run-bodies_distinct s cs xs ys zs p q v e same =
    let hex =
      All-at (λ (x : Permit). HexChallenge (some x.challenge)) xs p (ys ++ q ∷ zs)
        (subst (All (λ (x : Permit). HexChallenge (some x.challenge))) e
          (run-Hex s cs (v.base_challenge, v.arm_challenge))) in
    let hex' = All-at (λ (x : Permit). HexChallenge (some x.challenge)) ys q zs hex.1 in
    let equal =
      body-injective p q (Free-hex p.challenge hex.0.1) (Free-hex q.challenge hex'.0.1) same in
    let rising =
      Increasing-behind p.target (get p.target s.sequence) xs p (ys ++ q ∷ zs)
        (subst (Increasing p.target (get p.target s.sequence)) e (run-Increasing p.target s cs))
        refl in
    absurd (
      omega (
        arith,
        Increasing-lt p.target p.sequence ys q zs rising (ap (λ x. x.target) (sym equal)),
        ap (λ (x : Permit). x.sequence) equal,
      ))
