-- ===== src/Attempts/Verdict/Accepted.antt =====
-- When `require_no_fail_closed` of permit_attempts.py calls an attempt inconclusive.
use haetae.Prelude.{
  zero, suc, ◌≡◌, refl, ap, ◌∙◌, inl, inr, Bool, true, false, not, ◌&&◌, Option, none, some, List,
  if◌then◌else◌, if-cases,
}
use haetae.Prelude.Int.{ℤ, pos, negsuc, ◌+ℤ◌, ◌-ℤ◌}
use haetae.Python.{Result, ok, err, assertion_error, runner_delay, type_error, ◌>>=◌, err-injective}
use haetae.Attempts.{
  Row, Grant, GrantChain, Controller, base, arm, is_text, eq_ℤ, at_index, grant_at, admitted,
}
use haetae.Attempts.Hold.{
  At, Held, first_fail_closed, held_since, stamped_hold, or_else, hold_row, prompt_hold,
  hold_evidence, lapse_evidence, goal_window_evidence,
}
use haetae.Attempts.Verdict.Locks.{
  First, first_fail_closed-First, Lock, is_lock-Lock, counted_by, Counted, admitted-Counted,
}
use haetae.Attempts.Verdict.Bounds.{AtBound, bound_evidence-AtBound}
use haetae.Attempts.Verdict.{
  Seen, nothing, is_lock, after_of, bound_evidence, settled, classify, require_no_fail_closed,
}
use text.Mathlib.Text.{◌==◌ as str_eq}

-- The call is never itself the runner's delay.
IsPrompt : {A : Type 0} → Result A → Type 0
IsPrompt {A} call = call ≡ err runner_delay → ⊥

bind-IsPrompt :
    {A B : Type 0} (call : Result A) (rest : A → Result B)
    → IsPrompt call
    → ((a : A) → IsPrompt (rest a))
    → IsPrompt (call >>= rest)
unfolding IsPrompt
bind-IsPrompt (ok a) rest p q = q a
bind-IsPrompt (err e) rest p q = λ h. p (ap err (err-injective h))

ok-IsPrompt : {A : Type 0} (a : A) → IsPrompt (ok a)
unfolding IsPrompt
ok-IsPrompt a h = cc

if-IsPrompt :
    {A : Type 0} (b : Bool) (x y : Result A)
    → IsPrompt x
    → IsPrompt y
    → IsPrompt (if b then x else y)
if-IsPrompt true x y p q = p
if-IsPrompt false x y p q = q

assertion-IsPrompt : (A : Type 0) → IsPrompt {A = A} (err assertion_error)
unfolding IsPrompt
assertion-IsPrompt A h = cc

type_error-IsPrompt : (A : Type 0) → IsPrompt {A = A} (err type_error)
unfolding IsPrompt
type_error-IsPrompt A h = cc

held_since-IsPrompt :
    (after_ns : Option ℤ) (stop cutoff : ℤ) (row : Row)
    → IsPrompt (held_since after_ns stop cutoff row)
held_since-IsPrompt none stop cutoff row = (type_error-IsPrompt _)
held_since-IsPrompt (some t) stop cutoff row = if-IsPrompt _ _ _ (ok-IsPrompt _) (ok-IsPrompt _)

stamped_hold-IsPrompt :
    (stop cutoff after_ns : Option ℤ) (row : Row) → IsPrompt (stamped_hold stop cutoff after_ns row)
stamped_hold-IsPrompt (some s) (some c) after_ns row = held_since-IsPrompt after_ns s c row
stamped_hold-IsPrompt (some s) none after_ns row = ok-IsPrompt none
stamped_hold-IsPrompt none c after_ns row = ok-IsPrompt none

or_else-IsPrompt :
    (first rest : Result (Option Held))
    → IsPrompt first
    → IsPrompt rest
    → IsPrompt (or_else first rest)
unfolding IsPrompt
or_else-IsPrompt (err e) rest p q = λ h. p h
or_else-IsPrompt (ok (some x)) rest p q = ok-IsPrompt (some x)
or_else-IsPrompt (ok none) rest p q = q

hold_row-IsPrompt : (rows : List Row) (after_ns : Option ℤ) → IsPrompt (hold_row rows after_ns)
unfolding hold_row
hold_row-IsPrompt List.[] after_ns = ok-IsPrompt none
hold_row-IsPrompt (List.◌∷◌ row rows) after_ns =
    or_else-IsPrompt _ _
      (if-IsPrompt row.holding _ _
        (stamped_hold-IsPrompt row.stop_wall_ns row.cutoff_ms after_ns row) (ok-IsPrompt none))
      (hold_row-IsPrompt rows after_ns)

prompt_hold-IsPrompt :
    (stamp : ℤ) (rest : List Row) (held : Option Held) → IsPrompt (prompt_hold stamp rest held)
prompt_hold-IsPrompt stamp rest none = if-IsPrompt _ _ _ (assertion-IsPrompt _) (ok-IsPrompt _)
prompt_hold-IsPrompt stamp rest (some held) =
    if-IsPrompt _ _ _ (assertion-IsPrompt _) (ok-IsPrompt _)

hold_evidence-IsPrompt :
    (rows : List Row) (event : At) (after_ns : Option ℤ)
    → IsPrompt (hold_evidence rows event after_ns)
unfolding hold_evidence
hold_evidence-IsPrompt rows event after_ns = go event.row.stamp_ms
  where
    go :
        (stamp : Option ℤ)
        → IsPrompt (elim stamp as (λ _. Result (Option Held)) [
          | none ↦ err assertion_error
          | some s ↦ (do held ← hold_row rows after_ns; prompt_hold s event.rest held)
        ])
    go none = (assertion-IsPrompt _)
    go (some s) =
        bind-IsPrompt _ _ (hold_row-IsPrompt rows after_ns) (prompt_hold-IsPrompt s event.rest)

lapse_evidence-IsPrompt :
    (target : Controller) (rows : List Row) (event : At) (grant : Option Grant)
    → IsPrompt (lapse_evidence target rows event grant)
unfolding lapse_evidence
lapse_evidence-IsPrompt target rows event none = ok-IsPrompt _
lapse_evidence-IsPrompt base rows event (some grant) = ok-IsPrompt _
lapse_evidence-IsPrompt (arm after_ns) rows event (some grant) =
    bind-IsPrompt _ _ (hold_evidence-IsPrompt rows event after_ns) (λ held. ok-IsPrompt _)

bound_evidence-IsPrompt :
    (target : Controller) (rows : List Row) (event : At) (grant : Option Grant)
    → IsPrompt (bound_evidence target rows event grant)
unfolding bound_evidence goal_window_evidence
bound_evidence-IsPrompt target rows event none = lapse_evidence-IsPrompt target rows event none
bound_evidence-IsPrompt target rows event (some grant) =
    if-IsPrompt (is_text "rejected" event.row.reason && str_eq grant.kind "arm-goal") _ _
      (bind-IsPrompt _ _ (hold_evidence-IsPrompt rows event (after_of target))
        (λ held. ok-IsPrompt _))
      (lapse_evidence-IsPrompt target rows event (some grant))

admitted-IsPrompt : (accepted : Option ℤ) (chain : GrantChain) → IsPrompt (admitted accepted chain)
unfolding admitted
admitted-IsPrompt none chain = (assertion-IsPrompt _)
admitted-IsPrompt (some a) chain = go (a -ℤ chain.accepted_before -ℤ pos 1)
  where
    in_chain :
        (g : Option Grant)
        → IsPrompt (elim g as (λ _. Result (Option Grant)) [
          | none ↦ err assertion_error
          | some x ↦ ok (some x)
        ])
    in_chain none = (assertion-IsPrompt _)
    in_chain (some x) = ok-IsPrompt _

    go : (i : ℤ) → IsPrompt (at_index chain i)
    go (negsuc zero) = ok-IsPrompt none
    go (negsuc (suc n)) = (assertion-IsPrompt _)
    go (pos n) = in_chain (grant_at (List.◌∷◌ chain.first chain.later) n)

-- Where the whole is the runner's delay and the call is not, the rest is.
bind-delay :
    {A B : Type 0} (call : Result A) (rest : A → Result B)
    → IsPrompt call
    → (call >>= rest) ≡ err runner_delay
    → (a : A) × (call ≡ ok a) × (rest a ≡ err runner_delay)
unfolding IsPrompt
bind-delay (ok a) rest p h = (a, refl, h)
bind-delay (err e) rest p h = absurd (p (ap err (err-injective h)))

settled-delay : (verdict : Option Bool) → settled verdict ≡ err runner_delay → verdict ≡ some true
settled-delay none h = cc
settled-delay (some true) h = refl
settled-delay (some false) h = cc

-- What makes an event inconclusive: one rejection more, for freshness, or a lock at a bound in time
-- of the grant that the controller counted last.
pub data Explained (target : Controller) (rows : List Row) (rejected_before : ℤ)
    (chain : GrantChain) (event : At) : Type 0 where
  own_freshness :
      event.row.rejected ≡ rejected_before +ℤ pos 1
      → is_text "freshness" event.row.reason ≡ true
      → Explained target rows rejected_before chain event
  at_bound :
      (grant : Grant)
      → Lock target rejected_before event.row
      → Counted event.row.accepted chain grant
      → AtBound rows event grant target
      → Explained target rows rejected_before chain event

both : (a b : Bool) → (a && b) ≡ true → (a ≡ true) × (b ≡ true)
both true b h = (refl, h)
both false b h = cc

allowed : (a : Bool) → not a ≡ false → a ≡ true
allowed true h = refl
allowed false h = cc

classify-Explained :
    (target : Controller) (rows : List Row) (event : At) (rejected_before : ℤ) (chain : GrantChain)
    → classify target rows event rejected_before chain ≡ err runner_delay
    → Explained target rows rejected_before chain event
unfolding classify
classify-Explained target rows event rejected_before chain h =
    let delta = event.row.rejected -ℤ rejected_before in
    elim (if-cases (eq_ℤ delta (pos 1) && is_text "freshness" event.row.reason) _ _ _ h) [
      | inl (b, k) ↦
          let (one, text) = both _ _ b in
          own_freshness (counted_by event.row.rejected rejected_before 1 one) text
      | inr (b, k) ↦ elim (if-cases (not (is_lock target delta event.row.reason)) _ _ _ k) [
        | inl (b', k') ↦ cc
        | inr (b', k') ↦
            let (grant, e, k2) =
              bind-delay (admitted event.row.accepted chain) _
                (admitted-IsPrompt event.row.accepted chain) k' in
            let (verdict, e', k3) =
              bind-delay (bound_evidence target rows event grant) _
                (bound_evidence-IsPrompt target rows event grant) k2 in
            let (g, some_grant, bound) =
              bound_evidence-AtBound target rows event grant
                (e' ∙ ap ok (settled-delay verdict k3)) in
            at_bound g (is_lock-Lock target rejected_before event.row (allowed _ b'))
              (admitted-Counted event.row.accepted chain g (e ∙ ap ok some_grant)) bound
      ]
    ]

-- Where an attempt with a packet that must be accepted is inconclusive, the rows hold a first one,
-- published since then, that counts more rejections than before or shows a lapse. Either it counts
-- one more, for freshness, or it is a lock (a lapse with the same count, or one rejection more, as
-- locked or, by the arm, as rejected) at a bound in time of the grant that the controller counted
-- last: for the base, the row was published no earlier than 20 ms before the end of the lease; for
-- the arm, a row shows a hold that is stamped behind the instant, at most 30 ms behind the event,
-- and no earlier than the end of the lease by the wall clock, than 10 ms before its end by
-- simulation time, or, of a goal counted as rejected, than 10 ms before the close of its window of
-- 50 ms.
pub require_no_fail_closed-Explained :
    (target : Controller) (rows : List Row) (since_ns rejected_before : ℤ) (chain : GrantChain)
    → require_no_fail_closed target rows since_ns rejected_before chain ≡ err runner_delay
    → (event : At) × First since_ns rejected_before rows event
      × Explained target rows rejected_before chain event
unfolding require_no_fail_closed
require_no_fail_closed-Explained target rows since_ns rejected_before chain h =
    go (first_fail_closed rows since_ns rejected_before) refl h
  where
    go :
        (first : Option At)
        → first_fail_closed rows since_ns rejected_before ≡ first
        → elim first as (λ _. Result Seen) [
          | none ↦ ok nothing
          | some event ↦ classify target rows event rejected_before chain
        ]
          ≡ err runner_delay
        → (event : At) × First since_ns rejected_before rows event
          × Explained target rows rejected_before chain event
    go none e k = cc
    go (some event) e k = (
      event,
      first_fail_closed-First since_ns rejected_before rows event e,
      classify-Explained target rows event rejected_before chain k,
    )
