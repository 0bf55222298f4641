-- ===== src/Signing.antt =====
-- ros/haetae_gate/signing.py: the envelopes in which a source signs its inputs. Texts are their
-- UTF-8 bytes; the private keys are a parameter, the function from a role and a message to the
-- signature. The reading of the key files is not modelled.
pub mod Message
pub mod Counters
use haetae.Prelude.{
  ℕ, suc, ◌+◌, ◌^◌, Bool, true, false, not, ◌&&◌, ◌||◌, Option, none, some, List, [], ◌∷◌, ◌++◌,
  codes, length, ltb, leb, ◌==◌, if◌then◌else◌,
}
use haetae.Prelude.Bytes.{big_endian}
use haetae.Python.{Result, ok, err, value_error, struct_error, ◌>>=◌, ◌>>◌, raise_if}

pub data Role : Type 0 where
  world fault vla planner teleop peer : Role

-- `ROLE_TAG`
abbrev pub role_tag : Role → ℕ
role_tag world = 1
role_tag fault = 2
role_tag vla = 3
role_tag planner = 4
role_tag teleop = 5
role_tag peer = 6

abbrev pub same_role : Role → Role → Bool
same_role r q = role_tag r == role_tag q

-- `struct.pack` of one unsigned number: struct.error where it does not fit.
unfoldable pub pack : ℕ → ℕ → Result (List ℕ)
pack width n = if ltb n (256 ^ width) then ok (big_endian width n) else err struct_error

unfoldable pub input_message : List ℕ → ℕ → ℕ → Role → List ℕ → Result (List ℕ)
unfolding pack
input_message audience epoch counter role payload = do
  audience_size ← pack 4 (length audience)
  epoch_bytes ← pack 8 epoch
  counter_bytes ← pack 8 counter
  payload_size ← pack 4 (length payload)
  ok (
      codes "haetae-input-v1"
      ++ 0 ∷ audience_size
      ++ audience
      ++ epoch_bytes
      ++ counter_bytes
      ++ role_tag role ∷ payload_size
      ++ payload)

-- A dict from roles to counters, in which a missing role reads 0.
abbrev pub Counters : Type 0
Counters = Role → ℕ

abbrev pub update : Counters → Role → ℕ → Counters
update counters role n q = if same_role role q then n else counters q

pub record Signer : Type 0 where
  pub audience : List ℕ
  pub epoch : ℕ
  pub has_key : Role → Bool
  pub counters : Counters

-- What the state file holds: the epoch of its counters, and they.
pub record Saved : Type 0 where
  pub auth_epoch : ℕ
  pub counters : Counters

-- The counters that `__init__` starts from.
unfoldable pub restored : ℕ → (Role → Bool) → Option Saved → Result Counters
restored epoch has_key none = ok (λ _. 0)
restored epoch has_key (some state) =
    if ltb epoch state.auth_epoch
    then err value_error
    else if state.auth_epoch == epoch
    then ok (λ role. if has_key role then state.counters role else 0)
    else ok (λ _. 0)

-- `__init__` behind the parsing of the trust bundle and the keys.
unfoldable pub init : ℕ → List ℕ → ℕ → (Role → Bool) → Option Saved → Result Signer
unfolding restored
init version audience epoch has_key state = do
  raise_if (not (version == 1) || length audience == 0 || epoch == 0) value_error
  counters ← restored epoch has_key state
  ok (record { audience = audience; epoch = epoch; has_key = has_key; counters = counters })

-- The envelope, without its constant version.
pub record Envelope : Type 0 where
  pub audience : List ℕ
  pub epoch : ℕ
  pub counter : ℕ
  pub role : Role
  pub payload : List ℕ
  pub signature : List ℕ

-- The counter is kept only behind the signature.
unfoldable pub sign : (Role → List ℕ → List ℕ) → Role → List ℕ → Signer → Result (Envelope × Signer)
sign key_sign role payload s = do
  raise_if (not (s.has_key role)) value_error
  let counter = s.counters role + 1
  message ← input_message s.audience s.epoch counter role payload
  ok (
    record {
      audience = s.audience;
      epoch = s.epoch;
      counter = counter;
      role = role;
      payload = payload;
      signature = key_sign role message;
    },
    record s { counters = update s.counters role counter },
  )
