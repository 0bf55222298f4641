-- ===== src/Attempts/Retries/Bounded.antt =====
-- When `bounded_attempts` of permit_attempts.py passes.
use haetae.Prelude.{
  ℕ, zero, suc, ◌+◌, ◌≤◌, ◌<◌, ◌≡◌, refl, sym, ap, ◌∙◌, ◌⊎◌, inl, inr, ◌↔◌, arith, String, Bool,
  true, false, List, ltb,
}
use haetae.Python.{Error, Result, ok, err, runner_delay, ok-injective}
use haetae.Attempts.Retries.{Attempt, is_delay, end_attempt, attempts_from, bounded_attempts}

-- Attempt n passed with the row, and every one before it, from m on, was inconclusive.
pub record PassedAt {Row : Type 0} (body : ℕ → Result Row) (m : ℕ) (row : Row) (n : ℕ)
    : Type 0 where
  pub from : m ≤ n
  pub passes : body n ≡ ok row
  pub delayed : (i : ℕ) → m ≤ i → i < n → body i ≡ err runner_delay

eq_or_above : (m i : ℕ) → m ≤ i → (i ≡ m) ⊎ (suc m ≤ i)
eq_or_above m i h = go (ltb m i) refl
  where
    go : (b : Bool) → ltb m i ≡ b → (i ≡ m) ⊎ (suc m ≤ i)
    go true e = inr (ground arith)
    go false e = inl (ground arith)

delay_eq : (e : Error) → is_delay e ≡ true → e ≡ runner_delay
delay_eq runner_delay h = refl
delay_eq _ h = cc

module _ {Row : Type 0} (case' : String) (body : ℕ → Result Row) (attempts : ℕ) where
  passes_first :
      (m n : ℕ) (x row : Row)
      → body m ≡ ok x
      → ◌≡◌ {A = Result (Row × ℕ)} (ok (x, m)) (ok (row, n))
      → PassedAt body m row n × (n ≡ m)
  passes_first m n x row e h =
      let same : ◌≡◌ {A = Row × ℕ} (x, m) (row, n) = ok-injective h in
      let n-eq : n ≡ m = sym (ap (λ p. p.1) same) in
      (
        record {
          from = omega (arith, n-eq);
          passes = ap body n-eq ∙ e ∙ ap (λ p. ok p.0) same;
          delayed = λ i l r. absurd (omega (arith, n-eq, l, r));
        },
        n-eq,
      )

  passes_later :
      (m n : ℕ) (row : Row)
      → body m ≡ err runner_delay
      → PassedAt body (suc m) row n
      → PassedAt body m row n
  passes_later m n row e p = record {
    from = omega (arith, p.from);
    passes = p.passes;
    delayed = λ i l r. elim (eq_or_above m i l) [
      | inl same ↦ ap body same ∙ e
      | inr above ↦ p.delayed i above r
    ];
  }

  passed_of :
      (left m : ℕ) (log : List Attempt) (row : Row) (n : ℕ)
      → (attempts_from case' body attempts left m log).0 ≡ ok (row, n)
      → PassedAt body m row n × (n < m + left)
  unfolding attempts_from
  passed_of zero m log row n h = cc
  passed_of (suc left) m log row n h = go (body m) refl h (λ l. passed_of left (suc m) l row n)
    where
      go :
          (r : Result Row)
          → body m ≡ r
          → (end_attempt case' body attempts m
              (attempts_from case' body attempts left (suc m))
              log
              r).0
            ≡ ok (row, n)
          → ((l : List Attempt)
              → (attempts_from case' body attempts left (suc m) l).0 ≡ ok (row, n)
              → PassedAt body (suc m) row n × (n < suc m + left))
          → PassedAt body m row n × (n < m + suc left)
      go (ok x) e k others = let (p, same) = passes_first m n x row e k in (p, omega (arith, same))
      go (err runner_delay) e k others =
          let (p, l) = others _ k in (passes_later m n row e p, omega (arith, l))
      go (err x) e k others = cc

  of_passed :
      (left m : ℕ) (log : List Attempt) (row : Row) (n : ℕ)
      → PassedAt body m row n
      → n < m + left
      → (attempts_from case' body attempts left m log).0 ≡ ok (row, n)
  unfolding attempts_from
  of_passed zero m log row n p l = absurd (omega (arith, p.from, l))
  of_passed (suc left) m log row n p l = elim (eq_or_above m n p.from) [
    | inl same ↦ rw (ap body (sym same) ∙ p.passes) (ap (λ k. ok (row, k)) (sym same))
    | inr above ↦ rw (p.delayed m (omega arith) above) (
        of_passed left (suc m) _ row n
          (record {
            from = above;
            passes = p.passes;
            delayed = λ i a r. p.delayed i (omega (arith, a)) r;
          })
          (omega (arith, l)))
  ]

  -- A case passes at an attempt exactly where that attempt, which is one of the allowed number,
  -- returns the row, and each attempt before it was the runner's delay: any other exception ends
  -- the case, and attempts that were all inconclusive never pass.
  pub bounded_attempts-iff-PassedAt :
      (log : List Attempt) (row : Row) (n : ℕ)
      → ((bounded_attempts case' body attempts log).0 ≡ ok (row, n))
        ↔ (PassedAt body 1 row n × (n ≤ attempts))
  unfolding bounded_attempts
  bounded_attempts-iff-PassedAt log row n = (
    λ h. let (p, l) = passed_of attempts 1 log row n h in (p, omega (arith, l)),
    λ (p, l). of_passed attempts 1 log row n p (omega (arith, l)),
  )
