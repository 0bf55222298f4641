-- ===== src/Gateway/Trace.antt =====
-- What a method of the gate may send. A relation between the gate before and after: the trace has
-- grown by outputs that are allowed, a gate that failed stays so, and an invariant of the flag
-- `permit_reset` is kept.
pub mod Stops
pub mod Steps
pub mod Answers
pub mod Quiet
pub mod Receives
pub mod Runs
pub mod Deadlines
use haetae.Prelude.{
  ℕ, ◌≡◌, refl, sym, ap, ◌∙◌, subst, ◌⊎◌, inl, inr, Bool, true, false, Option, none, some, List, [],
  ◌∷◌, ◌++◌, All, if◌then◌else◌,
}
use haetae.Python.{Error, Result, ok, err}
use haetae.Python.Action.{Action, lift, gets, pure, ◌>>=◌, ◌>>◌, modify, when, raise_unless, rescue}
use haetae.Python.Action.Moves.{
  Moves, IsPath, pure-Moves, if-Moves, bind-Moves, lift-Moves, gets-Moves, rescue-Moves,
}
use haetae.Python.Double.{is_zero}
use haetae.Permits.Signer.{Kind}
use haetae.Gateway.{Gate, Method, Output, commanded, token, plain_beat, goal_sent, reading, emit}
use mathlib.Core.List.{append_assoc}

-- No velocity and no reset.
abbrev pub IsIdle : Option (Kind × List ℕ) → Type 0
IsIdle none = Unit
IsIdle (some (Kind.reset, frame)) = ⊥
IsIdle (some (_, frame)) = Unit

-- Nothing moves on it: a command with zero velocities that resets nothing, a revocation, a request
-- to cancel, a report.
abbrev pub Harmless : Output → Type 0
Harmless (commanded linear angular signed) =
    (is_zero linear ≡ true) × (is_zero angular ≡ true) × IsIdle signed
Harmless (token kind frame) = kind ≡ Kind.stop
Harmless (plain_beat started) = ⊥
Harmless (goal_sent trajectory frame) = ⊥
Harmless _ = Unit

pub record Adds (P : Output → Type 0) (Reset : Bool → Type 0) (g h : Gate) : Type 0 where
  pub new : List Output
  pub grown : h.trace ≡ new ++ g.trace
  pub allowed : All P new
  pub still_failed : g.failed ≡ true → h.failed ≡ true
  pub resets : Reset h.permit_reset

abbrev pub Step : (P : Output → Type 0) (Reset : Bool → Type 0) → Gate → Gate → Type 0
Step P Reset g h = Reset g.permit_reset → Adds P Reset g h

All-append : (P : Output → Type 0) (xs ys : List Output) → All P xs → All P ys → All P (xs ++ ys)
All-append P [] ys p q = q
All-append P (x ∷ xs) ys p q = (p.0, All-append P xs ys p.1 q)

module _ {P : Output → Type 0} {Reset : Bool → Type 0} where
  silent :
      (g h : Gate)
      → h.trace ≡ g.trace
      → h.failed ≡ g.failed
      → h.permit_reset ≡ g.permit_reset
      → Step P Reset g h
  silent g h t f r k = record {
    new = [];
    grown = t;
    allowed = tt;
    still_failed = λ e. f ∙ e;
    resets = subst Reset (sym r) k;
  }

  pub Step-path : IsPath (Step P Reset)
  Step-path = record {
    stay = λ g. silent g g refl refl refl;
    join = λ g h k m n r.
        let a = m r in
        let b = n a.resets in
        record {
          new = b.new ++ a.new;
          grown = b.grown ∙ ap (λ t. b.new ++ t) a.grown ∙ sym (append_assoc b.new a.new g.trace);
          allowed = All-append P b.new a.new b.allowed a.allowed;
          still_failed = λ e. b.still_failed (a.still_failed e);
          resets = b.resets;
        };
  }

  pub bind-Step :
      {A B : Type 0} (call : Method A) (rest : A → Method B)
      → Moves (Step P Reset) call
      → ((a : A) → Moves (Step P Reset) (rest a))
      → Moves (Step P Reset) (call >>= rest)
  bind-Step = bind-Moves Step-path

  pub lift-Step : {A : Type 0} (result : Result A) → Moves (Step P Reset) (lift result)
  lift-Step = lift-Moves Step-path

  pub gets-Step : {A : Type 0} (read : Gate → A) → Moves (Step P Reset) (gets read)
  gets-Step = gets-Moves Step-path

  pub pure-Step : {A : Type 0} (a : A) → Moves (Step P Reset) (pure a)
  pure-Step = pure-Moves Step-path

  pub if-Step :
      {A : Type 0} (b : Bool) (m n : Method A)
      → Moves (Step P Reset) m
      → Moves (Step P Reset) n
      → Moves (Step P Reset) (if b then m else n)
  if-Step b m n p q = if-Moves Step-path b m n (λ _. p) (λ _. q)

  pub rescue-Step :
      {A : Type 0} (call : Method A) (handler : Error → Method A)
      → Moves (Step P Reset) call
      → ((e : Error) → Moves (Step P Reset) (handler e))
      → Moves (Step P Reset) (rescue call handler)
  rescue-Step = rescue-Moves Step-path

  pub reading-Step : {A : Type 0} (tape : ℕ → A) → Moves (Step P Reset) (reading tape)
  reading-Step tape = record { at = λ g. silent g _ refl refl refl }

  -- A change of the other fields.
  pub modify-Step :
      (f : Gate → Gate)
      → ((g : Gate) → (f g).trace ≡ g.trace)
      → ((g : Gate) → (f g).failed ≡ g.failed)
      → ((g : Gate) → (f g).permit_reset ≡ g.permit_reset)
      → Moves (Step P Reset) (modify f)
  modify-Step f t e r = record { at = λ g. silent g (f g) (t g) (e g) (r g) }

  pub emit-Step : (o : Output) → P o → Moves (Step P Reset) (emit o)
  emit-Step o p = record {
    at = λ g k. record {
      new = o ∷ [];
      grown = refl;
      allowed = (p, tt);
      still_failed = λ e. e;
      resets = k;
    };
  }

  pub when-Step :
      (b : Bool) (call : Method (Unit {0}))
      → Moves (Step P Reset) call
      → Moves (Step P Reset) (when b call)
  when-Step b call m = if-Moves Step-path b _ _ (λ _. m) (λ _. pure-Moves Step-path tt)

  pub raise_unless-Step : (b : Bool) (e : Error) → Moves (Step P Reset) (raise_unless b e)
  raise_unless-Step true e = record { at = λ g. silent g g refl refl refl }
  raise_unless-Step false e = record { at = λ g. silent g g refl refl refl }

-- What is known of the flag may be forgotten.
pub any_reset :
    {P : Output → Type 0} {Reset : Bool → Type 0} (g h : Gate)
    → Adds P Reset g h
    → Adds P (λ _. Unit) g h
any_reset g h a = record {
  new = a.new;
  grown = a.grown;
  allowed = a.allowed;
  still_failed = a.still_failed;
  resets = tt;
}

All-map :
    (P Q : Output → Type 0) (f : (o : Output) → P o → Q o) (xs : List Output) → All P xs → All Q xs
All-map P Q f [] p = tt
All-map P Q f (x ∷ xs) p = (f x p.0, All-map P Q f xs p.1)

pub wider :
    {P Q : Output → Type 0} {Reset : Bool → Type 0} (g h : Gate)
    → ((o : Output) → P o → Q o)
    → Adds P Reset g h
    → Adds Q Reset g h
wider {P} {Q} g h f a = record {
  new = a.new;
  grown = a.grown;
  allowed = All-map P Q f a.new a.allowed;
  still_failed = a.still_failed;
  resets = a.resets;
}

pub ruleset step_rules = (
  bind-Step, lift-Step, gets-Step, pure-Step, if-Step, rescue-Step, reading-Step, when-Step,
  raise_unless-Step, emit-Step,
)
