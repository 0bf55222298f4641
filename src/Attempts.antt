-- ===== src/Attempts.antt =====
-- ros/gazebo/permit_attempts.py: when a probe of the controllers passes, fails, or is inconclusive
-- because the shared runner was late. `RunnerDelay` is the one exception that leads to a retry. A
-- row of a controller's telemetry is the record of what the rules read of it; a field of another
-- type than the one that a rule tests for is none. Times are nanoseconds, but for the two stamps of
-- the controller's own updates, which are milliseconds.
pub mod Timing
pub mod Hold
pub mod Verdict
pub mod Reset
pub mod Retries
use haetae.Prelude.{
  ℕ, ◌+◌, ◌-◌, zero, suc, String, Bool, true, false, not, ◌&&◌, ◌||◌, Option, none, some, List, [],
  ◌∷◌, if◌then◌else◌,
}
use haetae.Prelude.Int.{ℤ, pos, negsuc, ◌+ℤ◌, ◌-ℤ◌, ltb_ℤ, leb_ℤ}
use haetae.Python.{Result, ok, err, assertion_error}
use text.Mathlib.Text.{◌==◌ as str_eq}

pub record Row : Type 0 where
  pub published_wall_ns : ℤ
  pub nonce : Option String
  pub accepted : Option ℤ
  pub rejected : ℤ
  pub reason : Option String
  -- `row.get("holding") is True`
  pub holding : Bool
  pub stop_wall_ns : Option ℤ
  pub cutoff_ms : Option ℤ
  pub stamp_ms : Option ℤ

-- The signed fields of a permit.
pub record Grant : Type 0 where
  pub kind : String
  pub seq : ℤ
  pub sim_ns : ℤ
  pub wall_ns : ℤ
  pub sim_end_ns : ℤ
  pub wall_end_ns : ℤ

-- A controller; the arm's holds count from an instant on, where the caller names one.
pub data Controller : Type 0 where
  base : Controller
  arm : Option ℤ → Controller

abbrev pub verifier_window_ns : ℤ
verifier_window_ns = pos 50000000

abbrev pub lapse_allowance_ns : ℤ
lapse_allowance_ns = pos 20000000

abbrev pub controller_update_ns : ℤ
controller_update_ns = pos 10000000

-- `row.get("reason") == text`
abbrev pub is_text : String → Option String → Bool
is_text text none = false
is_text text (some s) = str_eq s text

abbrev pub same_text : Option String → Option String → Bool
same_text none none = true
same_text (some s) t = is_text s t
same_text _ _ = false

abbrev pub eq_ℤ : ℤ → ℤ → Bool
eq_ℤ a b = leb_ℤ a b && leb_ℤ b a

abbrev pub same_count : Option ℤ → Option ℤ → Bool
same_count none none = true
same_count (some a) (some b) = eq_ℤ a b
same_count _ _ = false

-- `GrantChain`: the first grant, and those sent behind it, in order.
pub record GrantChain : Type 0 where
  pub first : Grant
  pub later : List Grant
  pub accepted_before : ℤ

abbrev size : List Grant → ℕ
size [] = 0
size (_ ∷ grants) = suc (size grants)

abbrev pub count : GrantChain → ℤ
count chain = pos (suc (size chain.later))

unfoldable pub last_of : Grant → List Grant → Grant
last_of g [] = g
last_of g (h ∷ grants) = last_of h grants

-- `sent` and `last`
abbrev snoc : List Grant → Grant → List Grant
snoc [] g = g ∷ []
snoc (h ∷ grants) g = h ∷ snoc grants g

abbrev pub send_grant : Grant → GrantChain → GrantChain
send_grant fields chain = record chain { later = snoc chain.later fields }

abbrev pub last : GrantChain → Grant
last chain = last_of chain.first chain.later

unfoldable pub in_flight : Option ℤ → GrantChain → Bool
in_flight none chain = true
in_flight (some accepted) chain = ltb_ℤ accepted (chain.accepted_before +ℤ count chain)

abbrev pub grant_at : List Grant → ℕ → Option Grant
grant_at [] n = none
grant_at (g ∷ grants) zero = some g
grant_at (g ∷ grants) (suc n) = grant_at grants n

-- The grant at an index: none before the first.
abbrev pub at_index : GrantChain → ℤ → Result (Option Grant)
at_index chain (negsuc zero) = ok none
at_index chain (negsuc (suc n)) = err assertion_error
at_index chain (pos n) = elim (grant_at (chain.first ∷ chain.later) n) [
  | none ↦ err assertion_error
  | some g ↦ ok (some g)
]

-- The last grant that the controller admitted, by its own count.
unfoldable pub admitted : Option ℤ → GrantChain → Result (Option Grant)
admitted none chain = err assertion_error
admitted (some accepted) chain = at_index chain (accepted -ℤ chain.accepted_before -ℤ pos 1)
