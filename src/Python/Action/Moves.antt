-- ===== src/Python/Action/Moves.antt =====
-- What every path of a method does to the object: a reflexive, transitive relation between the
-- object before and after, with one rule for each way to build a method.
use haetae.Prelude.{◌≡◌, refl, Bool, true, false, if◌then◌else◌}
use haetae.Python.{Error, Result, ok, err}
use haetae.Python.Action.{Action, pure, lift, gets, after, ◌>>=◌, handle, rescue}

pub record IsPath {ℓ} {State : Type ℓ} (R : State → State → Type ℓ) : Type ℓ where
  pub stay : (s : State) → R s s
  pub join : (s t u : State) → R s t → R t u → R s u

-- However the call ends, the object has moved along the relation.
pub record Moves {ℓ} {State Value : Type ℓ} (R : State → State → Type ℓ) (call : Action State Value)
    : Type ℓ where
  pub at : (s : State) → R s (call s).1

module _ {ℓ} {State : Type ℓ} {R : State → State → Type ℓ} (path : IsPath R) where
  pub pure-Moves : {Value : Type ℓ} (value : Value) → Moves R (pure {State = State} value)
  pure-Moves value = record { at = λ s. path.stay s }

  pub lift-Moves : {Value : Type ℓ} (result : Result Value) → Moves R (lift {State = State} result)
  lift-Moves result = record { at = λ s. path.stay s }

  pub gets-Moves : {Value : Type ℓ} (read : State → Value) → Moves R (gets read)
  gets-Moves read = record { at = λ s. path.stay s }

  after-Moves :
      {Value Next : Type ℓ} (rest : Value → Action State Next) (s : State)
      (end' : Result Value × State)
      → R s end'.1
      → ((value : Value) → Moves R (rest value))
      → R s (after rest end').1
  after-Moves rest s (err e, t) m k = m
  after-Moves rest s (ok value, t) m k = path.join s t _ m ((k value).at t)

  pub bind-Moves :
      {Value Next : Type ℓ} (call : Action State Value) (rest : Value → Action State Next)
      → Moves R call
      → ((value : Value) → Moves R (rest value))
      → Moves R (call >>= rest)
  unfolding ◌>>=◌
  bind-Moves call rest m k = record { at = λ s. after-Moves rest s (call s) (m.at s) k }

  -- The rest may use what the object is where the call returned.
  pub bind-at :
      {Value Next : Type ℓ} (call : Action State Value) (rest : Value → Action State Next)
      (s : State)
      → R s (call s).1
      → ((value : Value) (t : State) → call s ≡ (ok value, t) → R t (rest value t).1)
      → R s ((call >>= rest) s).1
  unfolding ◌>>=◌
  bind-at {Value} call rest s m k = go (call s) refl m
    where
      go : (end' : Result Value × State) → call s ≡ end' → R s end'.1 → R s (after rest end').1
      go (err e, t) h m' = m'
      go (ok value, t) h m' = path.join s t _ m' (k value t h)

  -- The rest may use what the result is.
  pub bind-lift-Moves :
      {Value Next : Type ℓ} (result : Result Value) (rest : Value → Action State Next)
      → ((value : Value) → result ≡ ok value → Moves R (rest value))
      → Moves R (lift result >>= rest)
  unfolding ◌>>=◌
  bind-lift-Moves (ok value) rest k = record { at = λ s. (k value refl).at s }
  bind-lift-Moves (err e) rest k = record { at = λ s. path.stay s }

  -- The rest may use what was read of the object, at the object.
  pub bind-gets-Moves :
      {Value Next : Type ℓ} (read : State → Value) (rest : Value → Action State Next)
      → ((s : State) → R s (rest (read s) s).1)
      → Moves R (gets read >>= rest)
  unfolding ◌>>=◌
  bind-gets-Moves read rest k = record { at = k }

  pub if-Moves :
      {Value : Type ℓ} (b : Bool) (yes' no' : Action State Value)
      → (b ≡ true → Moves R yes')
      → (b ≡ false → Moves R no')
      → Moves R (if b then yes' else no')
  if-Moves true yes' no' f g = f refl
  if-Moves false yes' no' f g = g refl

  -- The same at one object.
  pub if-at :
      {Value : Type ℓ} (b : Bool) (yes' no' : Action State Value) (s : State)
      → (b ≡ true → R s (yes' s).1)
      → (b ≡ false → R s (no' s).1)
      → R s ((if b then yes' else no') s).1
  if-at true yes' no' s f g = f refl
  if-at false yes' no' s f g = g refl

  pub handle-Moves :
      {Value : Type ℓ} (handler : Error → Action State Value) (s : State)
      (end' : Result Value × State)
      → R s end'.1
      → ((e : Error) → Moves R (handler e))
      → R s (handle handler end').1
  handle-Moves handler s (ok value, t) m k = m
  handle-Moves handler s (err e, t) m k = path.join s t _ m ((k e).at t)

  pub rescue-Moves :
      {Value : Type ℓ} (call : Action State Value) (handler : Error → Action State Value)
      → Moves R call
      → ((e : Error) → Moves R (handler e))
      → Moves R (rescue call handler)
  unfolding rescue
  rescue-Moves call handler m k = record { at = λ s. handle-Moves handler s (call s) (m.at s) k }

-- Where the whole returned, the call did, and the rest returned from where it left the object.
pub bind-eq-ok {ℓ} :
    {State Value Next : Type ℓ} (call : Action State Value) (rest : Value → Action State Next)
    (s : State) {result : Next} {u : State}
    → (call >>= rest) s ≡ (ok result, u)
    → (value : Value) × (t : State) × (call s ≡ (ok value, t)) × (rest value t ≡ (ok result, u))
unfolding ◌>>=◌
bind-eq-ok {State = State} {Value = Value} {Next = Next} call rest s {result} {u} h =
    go (call s) refl h
  where
    go :
        (end' : Result Value × State)
        → call s ≡ end'
        → after rest end' ≡ (ok result, u)
        → (value : Value) × (t : State) × (call s ≡ (ok value, t)) × (rest value t ≡ (ok result, u))
    go (err e, t) k m = cc
    go (ok value, t) k m = (value, t, k, m)
