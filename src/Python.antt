-- ===== src/Python.antt =====
-- What every Python module of the repository uses of the language: the exception classes that the
-- code raises and catches, results, and the values of `json.loads` (Python/Values.antt). An
-- exception is its class; message texts are not kept.
pub mod Values
pub mod Double
pub mod Action
use haetae.Prelude.{
  ℕ, ◌≡◌, refl, Bool, true, false, ◌&&◌, ◌||◌, ◌==◌, List, [], ◌∷◌, codes, String, none, some, ◌⊎◌,
  inl, inr,
}
use Values.{Json, Fields, Items, nil, cons, arr, str, obj, find?, has, is_str}

-- The classes of the exceptions that the modelled code raises.
pub data Error : Type 0 where
  value_error invalid_proposal : Error
  runtime_error bridge_failure stale_actuation expired_actuation link_error : Error
  os_error key_error index_error type_error attribute_error struct_error overflow_error : Error
  assertion_error runner_delay : Error

-- What a call ends in: an exception, or a value.
pub data Result {ℓ} (Value : Type ℓ) : Type ℓ where
  err : Error → Result Value
  ok : Value → Result Value

module _ {ℓ κ} {Value : Type ℓ} {Next : Type κ} where
  infixl 5 ◌>>=◌
  -- A statement behind a call runs only where the call returned.
  abbrev pub ◌>>=◌ : Result Value → (Value → Result Next) → Result Next
  err raised >>= rest = err raised
  ok value >>= rest = rest value

  -- Where the whole returned, the call did.
  pub >>=-eq-ok :
      (call : Result Value) (rest : Value → Result Next) {result : Next}
      → (call >>= rest) ≡ ok result
      → (value : Value) × (call ≡ ok value) × (rest value ≡ ok result)
  >>=-eq-ok (err raised) rest returned = cc
  >>=-eq-ok (ok value) rest returned = (value, refl, returned)

infixl 5 ◌>>◌
abbrev pub ◌>>◌ {ℓ} : {Next : Type ℓ} → Result (Unit {0}) → Result Next → Result Next
call >> rest = call >>= λ _. rest

-- `if test: raise e`
abbrev pub raise_if : Bool → Error → Result (Unit {0})
raise_if true e = err e
raise_if false e = ok tt

-- `isinstance(exc, ValueError)`; InvalidProposal is declared below ValueError.
abbrev pub is_value_error : Error → Bool
is_value_error value_error = true
is_value_error invalid_proposal = true
is_value_error _ = false

-- `isinstance(exc, RuntimeError)`: the bridge's failures and the link's.
abbrev pub is_runtime_error : Error → Bool
is_runtime_error runtime_error = true
is_runtime_error bridge_failure = true
is_runtime_error stale_actuation = true
is_runtime_error expired_actuation = true
is_runtime_error link_error = true
is_runtime_error _ = false

-- `isinstance(exc, StaleActuation)`
abbrev pub is_stale_actuation : Error → Bool
is_stale_actuation stale_actuation = true
is_stale_actuation expired_actuation = true
is_stale_actuation _ = false

-- What `.get` needs: a dict, and otherwise AttributeError.
abbrev pub fields_of : Json → Result Fields
fields_of (obj fields) = ok fields
fields_of _ = err attribute_error

-- `value[key]`: KeyError for a missing key, TypeError where the value is no dict.
unfoldable pub at : String → Json → Result Json
at key (obj fields) = elim (find? key fields) [ none ↦ err key_error | some v ↦ ok v ]
at key _ = err type_error

abbrev starts_with : List ℕ → List ℕ → Bool
starts_with [] text = true
starts_with (c ∷ cs) [] = false
starts_with (c ∷ cs) (x ∷ xs) = c == x && starts_with cs xs

abbrev occurs_in : List ℕ → List ℕ → Bool
occurs_in word [] = starts_with word []
occurs_in word (x ∷ xs) = starts_with word (x ∷ xs) || occurs_in word xs

abbrev among : String → Items → Bool
among text nil = false
among text (cons value rest) = is_str text value || among text rest

-- `text in value`: a key of a dict, an element of a list, a part of a text; TypeError for others.
unfoldable pub contains : String → Json → Result Bool
unfolding has
contains text (obj fields) = ok (has text fields)
contains text (arr items) = ok (among text items)
contains text (str s) = ok (occurs_in (codes text) (codes s))
contains text _ = err type_error

pub fields_of-cases :
    (v : Json) → ((f : Fields) × (fields_of v ≡ ok f)) ⊎ (fields_of v ≡ err attribute_error)
fields_of-cases (obj f) = inl (f, refl)
fields_of-cases _ = inr refl

pub ok-injective {ℓ} : {A : Type ℓ} {a b : A} → ok a ≡ ok b → a ≡ b
ok-injective h = cc

pub err-injective {ℓ} : {A : Type ℓ} {e f : Error} → ◌≡◌ {A = Result A} (err e) (err f) → e ≡ f
err-injective h = cc

pub ok-ne-err {ℓ} : {A : Type ℓ} {a : A} {e : Error} → ok a ≡ err e → ⊥
ok-ne-err h = cc
