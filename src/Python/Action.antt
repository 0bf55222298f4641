-- ===== src/Python/Action.antt =====
-- Methods that change an object and may raise: what was written before a raise stays written.
pub mod Moves
use haetae.Prelude.{Bool, true, false, if◌then◌else◌}
use haetae.Python.{Error, Result, ok, err}

abbrev pub Action {ℓ} : Type ℓ → Type ℓ → Type ℓ
Action State Value = State → Result Value × State

module _ {ℓ} {State Value : Type ℓ} where
  abbrev pub pure : Value → Action State Value
  pure value self = (ok value, self)

  abbrev pub lift : Result Value → Action State Value
  lift result self = (result, self)

  abbrev pub gets : (State → Value) → Action State Value
  gets read self = (ok (read self), self)

module _ {ℓ} {State Value Next : Type ℓ} where
  -- What follows a call that ended.
  abbrev pub after : (Value → Action State Next) → Result Value × State → Result Next × State
  after rest (err e, self) = (err e, self)
  after rest (ok value, self) = rest value self

  infixl 5 ◌>>=◌ ◌>>◌
  unfoldable pub ◌>>=◌ : Action State Value → (Value → Action State Next) → Action State Next
  (call >>= rest) self = after rest (call self)

  abbrev pub ◌>>◌ : Action State Value → Action State Next → Action State Next
  call >> next = call >>= λ _. next

module _ {ℓ} {State Value : Type ℓ} where
  abbrev pub handle : (Error → Action State Value) → Result Value × State → Result Value × State
  handle handler (ok value, self) = (ok value, self)
  handle handler (err e, self) = handler e self

  -- `try: call` with `except Exception as exc: handler(exc)`
  unfoldable pub rescue : Action State Value → (Error → Action State Value) → Action State Value
  rescue call handler self = handle handler (call self)

module _ {State : Type 0} where
  abbrev pub modify : (State → State) → Action State (Unit {0})
  modify f self = (ok tt, f self)

  abbrev pub raise_unless : Bool → Error → Action State (Unit {0})
  raise_unless true e self = (ok tt, self)
  raise_unless false e self = (err e, self)

  abbrev pub when : Bool → Action State (Unit {0}) → Action State (Unit {0})
  when b call = if b then call else pure tt
