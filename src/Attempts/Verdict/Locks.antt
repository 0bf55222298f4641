-- ===== src/Attempts/Verdict/Locks.antt =====
-- The first row of permit_attempts.py that fails closed, what kind of lock it is, and the grant
-- that the controller counts with it.
use haetae.Prelude.{
  ℕ, zero, suc, ◌+◌, ◌≡◌, refl, sym, ap, ◌∙◌, subst, ◌⊎◌, inl, inr, arith, Bool, true, false, ◌&&◌,
  ◌||◌, Option, none, some, List, [], ◌∷◌, ◌++◌, length, All, if-cases,
}
use haetae.Prelude.Int.{
  ℤ, pos, negsuc, ◌+ℤ◌, ◌-ℤ◌, ◌≤ℤ◌, ◌<ℤ◌, pos_part, neg_part, eq_of_parts, int_laws,
}
use haetae.Python.{Result, ok, err, assertion_error, ok-injective}
use haetae.Attempts.{
  Row, Grant, GrantChain, Controller, base, arm, is_text, grant_at, at_index, admitted, eq_ℤ,
}
use haetae.Attempts.Hold.{At, first_where, first_fail_closed, fails_closed}
use haetae.Attempts.Verdict.{is_arm, is_lock}
use haetae.Attempts.Hold.Shown.{some-injective}

-- A row published since then that counts more rejections than before, or shows a lapse.
pub record FailsClosed (since_ns rejected_before : ℤ) (row : Row) : Type 0 where
  pub recent : since_ns ≤ℤ row.published_wall_ns
  pub closed : (rejected_before <ℤ row.rejected) ⊎ (is_text "expired" row.reason ≡ true)

-- The rows are split at the first that fails closed.
pub record First (since_ns rejected_before : ℤ) (rows : List Row) (event : At) : Type 0 where
  pub earlier : List Row
  pub its_rows : rows ≡ earlier ++ event.row ∷ event.rest
  pub none_earlier : All (λ row. FailsClosed since_ns rejected_before row → ⊥) earlier
  pub fails : FailsClosed since_ns rejected_before event.row

fails_closed-FailsClosed :
    (since before : ℤ) (row : Row)
    → fails_closed since before row ≡ true
    → FailsClosed since before row
fails_closed-FailsClosed since before row h = record {
  recent = ground arith;
  closed = ground arith;
}

fails_closed-false :
    (since before : ℤ) (row : Row)
    → fails_closed since before row ≡ false
    → FailsClosed since before row
    → ⊥
fails_closed-false since before row h f = let r = f.recent in let c = f.closed in ground arith

pub first_fail_closed-First :
    (since before : ℤ) (rows : List Row) (event : At)
    → first_fail_closed rows since before ≡ some event
    → First since before rows event
unfolding first_where
first_fail_closed-First since before [] event h = cc
first_fail_closed-First since before (row ∷ rows) event h =
    elim (if-cases (fails_closed since before row) _ _ _ h) [
      | inl (b, e) ↦ subst (First since before (row ∷ rows)) (some-injective e) (record {
        earlier = [];
        its_rows = refl;
        none_earlier = tt;
        fails = fails_closed-FailsClosed since before row b;
      })
      | inr (b, e) ↦
          let f = first_fail_closed-First since before rows event e in
          record {
            earlier = row ∷ f.earlier;
            its_rows = ap (λ x. row ∷ x) f.its_rows;
            none_earlier = (fails_closed-false since before row b, f.none_earlier);
            fails = f.fails;
          }
    ]

-- The grant is the last of those that the controller counts, by the order in which they were sent.
pub record Counted (accepted : Option ℤ) (chain : GrantChain) (grant : Grant) : Type 0 where
  pub older : List Grant
  pub newer : List Grant
  pub its_chain : chain.first ∷ chain.later ≡ older ++ grant ∷ newer
  pub its_count : accepted ≡ some (chain.accepted_before +ℤ pos (length older + 1))

grant_at-split :
    (grants : List Grant) (n : ℕ) (grant : Grant)
    → grant_at grants n ≡ some grant
    → (older : List Grant) × (newer : List Grant) × (grants ≡ older ++ grant ∷ newer)
      × (length older ≡ n)
grant_at-split [] n grant h = cc
grant_at-split (g ∷ grants) zero grant h =
    ([], grants, ap (λ x. x ∷ grants) (some-injective h), refl)
grant_at-split (g ∷ grants) (suc n) grant h =
    let (older, newer, e, k) = grant_at-split grants n grant h in
    (g ∷ older, newer, ap (λ x. g ∷ x) e, ap suc k)

count_of : (a b : ℤ) (n : ℕ) → a -ℤ b -ℤ pos 1 ≡ pos n → a ≡ b +ℤ pos (n + 1)
count_of a b n h =
    let p = ap pos_part h in
    let q = ap neg_part h in eq_of_parts a (b +ℤ pos (n + 1)) (omega int_laws)

pub admitted-Counted :
    (accepted : Option ℤ) (chain : GrantChain) (grant : Grant)
    → admitted accepted chain ≡ ok (some grant)
    → Counted accepted chain grant
unfolding admitted
admitted-Counted none chain grant h = cc
admitted-Counted (some a) chain grant h = go (a -ℤ chain.accepted_before -ℤ pos 1) refl h
  where
    found :
        (g : Option Grant)
        → elim g as (λ _. Result (Option Grant)) [
          | none ↦ err assertion_error
          | some x ↦ ok (some x)
        ]
          ≡ ok (some grant)
        → g ≡ some grant
    found none k = cc
    found (some g) k = ok-injective k

    go :
        (i : ℤ)
        → a -ℤ chain.accepted_before -ℤ pos 1 ≡ i
        → at_index chain i ≡ ok (some grant)
        → Counted (some a) chain grant
    go (negsuc zero) e k = cc
    go (negsuc (suc n)) e k = cc
    go (pos n) e k =
        let (older, newer, its, size) =
          grant_at-split (chain.first ∷ chain.later) n grant
            (found (grant_at (chain.first ∷ chain.later) n) k) in
        record {
          older = older;
          newer = newer;
          its_chain = its;
          its_count =
              ap some (count_of a chain.accepted_before (length older) (e ∙ ap pos (sym size)));
        }

-- A lock that a bound in time can explain: a lapse that counts no rejection, or one rejection more
-- for the lock, or by the arm for any other reason of its own.
pub data Lock (target : Controller) (rejected_before : ℤ) (row : Row) : Type 0 where
  lapse :
      row.rejected ≡ rejected_before
      → is_text "expired" row.reason ≡ true
      → Lock target rejected_before row
  locked :
      row.rejected ≡ rejected_before +ℤ pos 1
      → is_text "locked" row.reason ≡ true
      → Lock target rejected_before row
  refused :
      row.rejected ≡ rejected_before +ℤ pos 1
      → is_text "rejected" row.reason ≡ true
      → (target ≡ base → ⊥)
      → Lock target rejected_before row

pub counted_by : (a b : ℤ) (n : ℕ) → eq_ℤ (a -ℤ b) (pos n) ≡ true → a ≡ b +ℤ pos n
counted_by a b n h =
    let e = eq_of_parts (a -ℤ b) (pos n) (ground arith) in
    let p = ap pos_part e in let q = ap neg_part e in eq_of_parts a (b +ℤ pos n) (omega int_laws)

no_more : (a b : ℤ) → eq_ℤ (a -ℤ b) (pos 0) ≡ true → a ≡ b
no_more a b h =
    let e = eq_of_parts (a -ℤ b) (pos 0) (ground arith) in
    let p = ap pos_part e in let q = ap neg_part e in eq_of_parts a b (omega int_laws)

one_of :
    (a b c d e f : Bool)
    → ((a && b) || (c && d) || (c && e && f)) ≡ true
    → ((a ≡ true) × (b ≡ true))
      ⊎ (((c ≡ true) × (d ≡ true)) ⊎ ((c ≡ true) × (e ≡ true) × (f ≡ true)))
one_of true true c d e f h = inl (refl, refl)
one_of false b true true e f h = inr (inl (refl, refl))
one_of true false true true e f h = inr (inl (refl, refl))
one_of false b true false true true h = inr (inr (refl, refl, refl))
one_of true false true false true true h = inr (inr (refl, refl, refl))
one_of _ _ _ _ _ _ h = cc

not_base : (target : Controller) → is_arm target ≡ true → target ≡ base → ⊥
not_base base h e = cc
not_base (arm _) h e = cc

pub is_lock-Lock :
    (target : Controller) (before : ℤ) (row : Row)
    → is_lock target (row.rejected -ℤ before) row.reason ≡ true
    → Lock target before row
is_lock-Lock target before row h =
    elim (one_of (eq_ℤ (row.rejected -ℤ before) (pos 0)) (is_text "expired" row.reason)
      (eq_ℤ (row.rejected -ℤ before) (pos 1)) (is_text "locked" row.reason)
      (is_text "rejected" row.reason) (is_arm target) h) [
        | inl (n, t) ↦ lapse (no_more row.rejected before n) t
        | inr (inl (n, t)) ↦ locked (counted_by row.rejected before 1 n) t
        | inr (inr (n, t, a)) ↦ refused (counted_by row.rejected before 1 n) t (not_base target a)
      ]
