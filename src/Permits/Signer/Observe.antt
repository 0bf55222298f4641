-- ===== src/Permits/Signer/Observe.antt =====
-- What a report of a controller changes of the signer.
use haetae.Prelude.{
  ℕ, ◌≡◌, refl, sym, ◌⊎◌, inl, inr, arith, Bool, true, false, ◌&&◌, Option, none, some, List, codes,
  length, all, ◌==◌, Bool-cases, ◌^◌, ltb, if◌then◌else◌,
}
use haetae.Prelude.Bytes.{is_hex}
use haetae.Prelude.Int.{pos, negsuc}
use haetae.Python.{Error, Result, ok, err, value_error, ok-injective, fields_of-cases}
use haetae.Python.Values.{Json, Fields, int, bool, str, find_or}
use haetae.Permits.Signer.{
  Target, PermitSigner, base, arm, set, idle_text, hex_text, observe, observe_fields, observe_arm,
  observe_goal, observe_holding,
}

-- A challenge that the signer holds is 32 hexadecimal digits.
abbrev pub HexChallenge : Option (List ℕ) → Type 0
HexChallenge none = Unit
HexChallenge (some nonce) = (length nonce ≡ 32) × (all is_hex nonce ≡ true)

taken :
    (test : Bool) (cs xs : List ℕ)
    → (if test then ok cs else err value_error) ≡ ok xs
    → (test ≡ true) × (xs ≡ cs)
taken true cs xs h = (refl, sym (ok-injective h))
taken false cs xs h = cc

hex_text-eq :
    (n : ℕ) (v : Json) (xs : List ℕ)
    → hex_text n v ≡ ok xs
    → (length xs ≡ n) × (all is_hex xs ≡ true)
unfolding hex_text
hex_text-eq n (str t) xs h =
    let (test, e) = taken (length (codes t) == n && all is_hex (codes t)) (codes t) xs h in
    rw e (ground arith)
hex_text-eq n _ xs h = cc

-- What an observation leaves of the challenges and the counters.
abbrev Keeps : PermitSigner → PermitSigner → Type 0
Keeps s s' = (s'.challenges ≡ s.challenges) × (s'.sequence ≡ s.sequence)

observe_holding-Keeps :
    (v : Json) (expired : Bool) (s : PermitSigner) → Keeps s (observe_holding v expired s).1
observe_holding-Keeps (bool b) expired s = (refl, refl)
observe_holding-Keeps _ expired s = (refl, refl)

observe_goal-Keeps :
    (v : Json) (fields : Fields) (s : PermitSigner) → Keeps s (observe_goal v fields s).1
observe_goal-Keeps (int (pos n)) fields s = elim (Bool-cases (ltb n (2 ^ 63))) [
  | inl fits ↦ rw fits (observe_holding-Keeps (find_or "holding" (bool true) fields) _ _)
  | inr large ↦ rw large (refl, refl)
]
observe_goal-Keeps (int (negsuc n)) fields s = (refl, refl)
observe_goal-Keeps _ fields s = (refl, refl)

pub Result-cases :
    {A : Type 0} (r : Result A) → ((a : A) × (r ≡ ok a)) ⊎ ((e : Error) × (r ≡ err e))
Result-cases (ok a) = inl (a, refl)
Result-cases (err e) = inr (e, refl)

observe_arm-Keeps :
    (t : Target) (fields : Fields) (s : PermitSigner) → Keeps s (observe_arm t fields s).1
observe_arm-Keeps base fields s = (refl, refl)
observe_arm-Keeps arm fields s =
    elim (Result-cases (hex_text 64 (find_or "active_digest" (str idle_text) fields))) [
      | inl (digest, e) ↦
          rw (e, observe_arm)
            (observe_goal-Keeps (find_or "goal_sequence" (int (pos 0)) fields) fields _)
      | inr (x, e) ↦ rw (e, observe_arm) (refl, refl)
    ]

-- The counters do not change, and a challenge changes only to 32 hexadecimal digits.
abbrev pub Observed : PermitSigner → Target → PermitSigner → Type 0
Observed s t s' =
    (s'.sequence ≡ s.sequence)
    × ((s'.challenges ≡ s.challenges)
        ⊎ ((nonce : List ℕ) × HexChallenge (some nonce)
            × (s'.challenges ≡ set t (some nonce) s.challenges)))

observe_fields_cases :
    (t : Target) (fields : Fields) (s : PermitSigner) → Observed s t (observe_fields t fields s).1
observe_fields_cases t fields s =
    elim (Result-cases (hex_text 32 (find_or "nonce" (str "") fields))) [
      | inl (nonce, e) ↦
          let kept =
            observe_arm-Keeps t fields
              (record s { challenges = set t (some nonce) s.challenges }) in
          rw (e, observe_fields) (kept.1, inr (nonce, hex_text-eq 32 _ nonce e, kept.0))
      | inr (x, e) ↦ rw (e, observe_fields) (refl, inl refl)
    ]

pub observe_cases :
    (t : Target) (value : Json) (s : PermitSigner) → Observed s t (observe t value s).1
unfolding observe
observe_cases t value s = elim (fields_of-cases value) [
  | inl (fields, e) ↦ rw (e, observe) (observe_fields_cases t fields s)
  | inr e ↦ rw (e, observe) (refl, inl refl)
]
