-- ===== src/Permits/Signer.antt =====
-- `PermitSigner` of controller_permits.py: what the controllers report, and the permits signed
-- against it. The private key is a parameter, the function from a body to the hexadecimal text of
-- its signature. A nonce or digest that is no text is a TypeError (for an int or a bool; the code
-- would take a list of characters for the text).
pub mod Body
pub mod Issue
pub mod Observe
pub mod History
use haetae.Prelude.{
  ℕ, ◌+◌, ◌-◌, ◌^◌, Bool, true, false, not, ◌&&◌, Option, none, some, List, [], ◌∷◌, ◌++◌, String,
  length, all, codes, ltb, ◌==◌, if◌then◌else◌,
}
use haetae.Prelude.Bytes.{is_hex}
use haetae.Prelude.Decimal.{decimal, join}
use haetae.Prelude.Int.{ℤ, pos, negsuc}
use haetae.Python.{Result, ok, err, value_error, type_error, fields_of}
use haetae.Python.Values.{Json, Fields, bool, int, str, find, find_or, is_str}

-- The two controllers.
pub data Target : Type 0 where
  base arm : Target

-- What the gateway signs permits for.
pub data Kind : Type 0 where
  command goal lease reset stop : Kind

-- A dict with the two targets as its keys.
pub record PerTarget {ℓ} (A : Type ℓ) : Type ℓ where
  pub for_base : A
  pub for_arm : A

module _ {ℓ} {A : Type ℓ} where
  abbrev pub get : Target → PerTarget A → A
  get base m = m.for_base
  get arm m = m.for_arm

  abbrev pub set : Target → A → PerTarget A → PerTarget A
  set base a m = record m { for_base = a }
  set arm a m = record m { for_arm = a }

abbrev pub idle_text : String
idle_text = "0000000000000000000000000000000000000000000000000000000000000000"

abbrev pub idle : List ℕ
idle = codes idle_text

abbrev pub max_lease_ns : ℕ
max_lease_ns = 200000000

-- A challenge is absent until the controller has reported one.
pub record PermitSigner : Type 0 where
  pub sim_backdate_ns : ℕ
  pub challenges : PerTarget (Option (List ℕ))
  pub sequence : PerTarget ℕ
  pub active_arm : List ℕ
  pub admitted_arm : List ℕ
  pub goal_sequence : ℕ
  pub admitted_goal_sequence : ℕ
  pub admitted_arm_holding : Bool
  pub admitted_arm_expired : Bool

abbrev start : ℕ → PermitSigner
start backdate = record {
  sim_backdate_ns = backdate;
  challenges = record { for_base = none; for_arm = none };
  sequence = record { for_base = 0; for_arm = 0 };
  active_arm = idle;
  admitted_arm = idle;
  goal_sequence = 0;
  admitted_goal_sequence = 0;
  admitted_arm_holding = true;
  admitted_arm_expired = false;
}

-- `__init__`, without the reading of the key.
unfoldable pub init : ℤ → Result PermitSigner
init (pos backdate) = if ltb backdate 50000000 then ok (start backdate) else err value_error
init (negsuc _) = err value_error

-- A text of a number of lower-case hexadecimal digits.
unfoldable pub hex_text : ℕ → Json → Result (List ℕ)
hex_text size (str text) =
    if length (codes text) == size && all is_hex (codes text)
    then ok (codes text)
    else err value_error
hex_text size _ = err type_error

-- The reported state of the arm: each field is kept once it is checked, also if a later one fails.
abbrev pub observe_holding : Json → Bool → PermitSigner → Result (Unit {0}) × PermitSigner
observe_holding (bool holding) expired s =
    (ok tt, record s { admitted_arm_holding = holding; admitted_arm_expired = holding && expired })
observe_holding _ expired s = (err value_error, s)

abbrev pub observe_goal : Json → Fields → PermitSigner → Result (Unit {0}) × PermitSigner
observe_goal (int (pos sequence)) fields s =
    if ltb sequence (2 ^ 63)
    then observe_holding (find_or "holding" (bool true) fields)
        (is_str "expired" (find "reason" fields)) (record s { admitted_goal_sequence = sequence })
    else (err value_error, s)
observe_goal _ fields s = (err value_error, s)

abbrev pub observe_arm : Target → Fields → PermitSigner → Result (Unit {0}) × PermitSigner
observe_arm base fields s = (ok tt, s)
observe_arm arm fields s = elim (hex_text 64 (find_or "active_digest" (str idle_text) fields)) [
  | err e ↦ (err e, s)
  | ok digest ↦
      observe_goal (find_or "goal_sequence" (int (pos 0)) fields) fields
        (record s { admitted_arm = digest })
]

abbrev pub observe_fields : Target → Fields → PermitSigner → Result (Unit {0}) × PermitSigner
observe_fields target fields s = elim (hex_text 32 (find_or "nonce" (str "") fields)) [
  | err e ↦ (err e, s)
  | ok nonce ↦
      observe_arm target fields (record s { challenges = set target (some nonce) s.challenges })
]

unfoldable pub observe : Target → Json → PermitSigner → Result (Unit {0}) × PermitSigner
observe target value s = elim (fields_of value) [
  | err e ↦ (err e, s)
  | ok fields ↦ observe_fields target fields s
]

-- The fields of a body.
pub record Permit : Type 0 where
  pub target : Target
  pub kind : Kind
  pub challenge : List ℕ
  pub sequence : ℕ
  pub sim_ns : ℕ
  pub wall_ns : ℕ
  pub sim_expires_ns : ℕ
  pub wall_expires_ns : ℕ
  pub digest : List ℕ

abbrev pub target_text : Target → List ℕ
target_text base = codes "base"
target_text arm = codes "arm"

abbrev pub kind_text : Kind → List ℕ
kind_text command = codes "command"
kind_text goal = codes "goal"
kind_text lease = codes "lease"
kind_text reset = codes "reset"
kind_text stop = codes "stop"

-- `":".join((...))`
unfoldable pub body : Permit → List ℕ
unfolding join decimal
body p = join b':' (
    codes "v1"
    ∷ (target_text p.target ++ b'-' ∷ kind_text p.kind)
    ∷ p.challenge
    ∷ decimal p.sequence
    ∷ decimal p.sim_ns
    ∷ decimal p.wall_ns
    ∷ decimal p.sim_expires_ns
    ∷ decimal p.wall_expires_ns
    ∷ p.digest
    ∷ [])

-- The permit behind the tests, with the sequence advanced. `sim - backdate` stops at 0.
abbrev pub issued :
    Target → Kind → List ℕ → List ℕ → ℕ → ℕ → ℕ → PermitSigner → Permit × PermitSigner
issued target kind digest challenge sim_ns lease_ns wall_ns s =
    let sequence = get target s.sequence + 1 in
    let origin = sim_ns - s.sim_backdate_ns in
    (
      record {
        target = target;
        kind = kind;
        challenge = challenge;
        sequence = sequence;
        sim_ns = origin;
        wall_ns = wall_ns;
        sim_expires_ns = origin + lease_ns;
        wall_expires_ns = wall_ns + lease_ns;
        digest = digest;
      },
      record s { sequence = set target sequence s.sequence },
    )

-- `min(MAX_LEASE_NS, int(remaining_ns))`, absent if it is not positive.
abbrev pub lease_of : ℤ → Option ℕ
lease_of (pos remaining_ns) =
    let lease_ns = if ltb remaining_ns max_lease_ns then remaining_ns else max_lease_ns in
    if lease_ns == 0 then none else some lease_ns
lease_of (negsuc _) = none

unfoldable pub issue :
    Target → Kind → List ℕ → ℕ → ℤ → ℕ → PermitSigner → Result Permit × PermitSigner
issue target kind digest sim_ns remaining_ns wall_ns s = elim (get target s.challenges) [
  | none ↦ (err value_error, s)
  | some challenge ↦ elim (lease_of remaining_ns) [
    | none ↦ (err value_error, s)
    | some lease_ns ↦
        let (permit, s') = issued target kind digest challenge sim_ns lease_ns wall_ns s in
        (ok permit, s')
  ]
]

abbrev pub signed :
    (List ℕ → List ℕ) → Result Permit × PermitSigner → Result (List ℕ) × PermitSigner
signed sign_hex (ok p, s) = (ok (body p ++ b':' ∷ sign_hex (body p)), s)
signed sign_hex (err e, s) = (err e, s)

unfoldable pub sign :
    (List ℕ → List ℕ)
    → Target
    → Kind
    → List ℕ
    → ℕ
    → ℤ
    → ℕ
    → PermitSigner
    → Result (List ℕ) × PermitSigner
unfolding issue
sign sign_hex target kind digest sim_ns remaining_ns wall_ns s =
    signed sign_hex (issue target kind digest sim_ns remaining_ns wall_ns s)
