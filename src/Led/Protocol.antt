-- ===== src/Led/Protocol.antt =====
-- tools/permit_protocol.py: the request that a board's state makes, and the bytes and lines that
-- stand for it. A request that `context` lets through is a record; `json.loads` is a parameter.
pub mod Requests
pub mod Payloads
use haetae.Prelude.{
  ℕ, suc, ◌+◌, ◌-◌, ◌*◌, ◌≤◌, ◌<◌, Bool, true, false, not, ◌&&◌, ◌||◌, String, Option, none, some,
  List, [], ◌∷◌, ◌++◌, codes, length, all, drop, ltb, leb, ◌==◌, if◌then◌else◌,
}
use haetae.Prelude.Bytes.{is_hex, little_endian}
use haetae.Prelude.Decimal.{decimal}
use haetae.Prelude.Int.{pos}
use haetae.Python.{Result, ok, err, value_error, ◌>>=◌, ◌>>◌, raise_if, at}
use haetae.Python.Values.{Json, Fields, has_exactly, int, str, obj, end, field, find, has}
use text.Mathlib.Text.{◌==◌ as str_eq}

pub data Op : Type 0 where
  bind arm run : Op

-- The state that the board reported, with the action that is asked for.
pub record Request : Type 0 where
  pub install : List ℕ
  pub epoch : ℕ
  pub generation : ℕ
  pub sequence : ℕ
  pub challenge : ℕ
  pub issued : ℕ
  pub nonce : List ℕ
  pub op : Op

abbrev pub names : List String
names =
    "install" ∷ "epoch" ∷ "generation" ∷ "sequence" ∷ "challenge" ∷ "issued" ∷ "nonce" ∷ "op" ∷ []

-- `re.fullmatch(r"[0-9a-f]{size}", text)`
unfoldable pub is_hex_of : ℕ → List ℕ → Bool
is_hex_of size text = length text == size && all is_hex text

-- A text of 32 hexadecimal digits.
unfoldable pub identity : Json → Result (List ℕ)
unfolding is_hex_of
identity (str text) = if is_hex_of 32 (codes text) then ok (codes text) else err value_error
identity _ = err value_error

abbrev pub max_u32 : ℕ
max_u32 = 4294967295

-- `type(value) is int and 0 <= value <= 0xffffffff`
unfoldable pub counter : Json → Result ℕ
counter (int (pos n)) = if leb n max_u32 then ok n else err value_error
counter _ = err value_error

unfoldable pub op_of : Json → Result Op
op_of (str text) =
    if str_eq text "BIND"
    then ok bind
    else if str_eq text "ARM"
    then ok arm
    else if str_eq text "RUN"
    then ok run
    else err value_error
op_of _ = err value_error

-- The tests on the fields' values.
unfoldable pub checked : Fields → Result Request
checked fields = do
  install ← identity (find "install" fields)
  nonce ← identity (find "nonce" fields)
  epoch ← counter (find "epoch" fields)
  generation ← counter (find "generation" fields)
  sequence ← counter (find "sequence" fields)
  challenge ← counter (find "challenge" fields)
  issued ← counter (find "issued" fields)
  raise_if (epoch == 0 || generation == 0 || challenge == 0) value_error
  raise_if (sequence == max_u32) value_error
  op ← op_of (find "op" fields)
  ok (record {
    install = install;
    epoch = epoch;
    generation = generation;
    sequence = sequence;
    challenge = challenge;
    issued = issued;
    nonce = nonce;
    op = op;
  })

unfoldable pub context : Json → Result Request
context (obj fields) = if has_exactly names fields then checked fields else err value_error
context _ = err value_error

-- `decode_json`; the hook that refuses a repeated key belongs to `loads`.
unfoldable pub decode_json : (List ℕ → Result Json) → List ℕ → Result Json
unfolding context
decode_json loads raw = do
  raise_if (ltb 512 (length raw)) value_error
  value ← loads raw
  _ ← context value
  ok value

abbrev pub op_code : Op → ℕ
op_code arm = 0
op_code run = 1
op_code bind = 2

-- The value of a hexadecimal digit.
unfoldable pub nibble : ℕ → ℕ
nibble c = if leb c b'9' then c - 48 else c - 87

-- `bytes.fromhex(text)`
unfoldable pub from_hex : List ℕ → List ℕ
unfolding nibble
from_hex (a ∷ b ∷ rest) = (16 * nibble a + nibble b) ∷ from_hex rest
from_hex _ = []

-- `DOMAIN`
abbrev pub domain : List ℕ
domain = codes "HAETAE-LED-H2" ++ 0 ∷ 0 ∷ 0 ∷ []

abbrev pub exchange_domain : List ℕ
exchange_domain = codes "HAETAE-KEX-H2" ++ 0 ∷ 0 ∷ 0 ∷ []

-- `struct.pack("<7I", ...)` of the seven numbers.
unfoldable pub pack_numbers : List ℕ → List ℕ
pack_numbers [] = []
pack_numbers (n ∷ rest) = little_endian 4 n ++ pack_numbers rest

abbrev pub numbers : Request → ℕ → List ℕ
numbers r duration =
    r.epoch
    ∷ r.generation
    ∷ (r.sequence + 1)
    ∷ r.challenge
    ∷ r.issued
    ∷ duration
    ∷ op_code r.op
    ∷ []

abbrev pub is_duration : Op → ℕ → Bool
is_duration bind duration = duration == 0
is_duration _ duration = leb 1 duration && leb duration 200

-- What follows the domain.
unfoldable pub fields_bytes : Request → ℕ → List ℕ
fields_bytes r duration =
    from_hex r.install ++ (pack_numbers (numbers r duration) ++ from_hex r.nonce)

-- `payload` of a request that passed `context`.
unfoldable pub permit_bytes : Request → ℕ → Result (List ℕ)
permit_bytes r duration =
    if is_duration r.op duration then ok (domain ++ fields_bytes r duration) else err value_error

unfoldable pub payload : Json → ℕ → Result (List ℕ)
payload value duration = do r ← context value; permit_bytes r duration

-- `value["op"] == "BIND"`, of a value that was read.
abbrev pub is_bind_text : Json → Bool
is_bind_text (str text) = str_eq text "BIND"
is_bind_text _ = false

unfoldable pub bind_payload : Json → List ℕ → List ℕ → Result (List ℕ)
unfolding payload is_hex_of
bind_payload value ephemeral controller_public = do
  op ← at "op" value
  raise_if
      (not (is_bind_text op)
        || not (is_hex_of 64 ephemeral)
        || not (is_hex_of 64 controller_public))
      value_error
  bytes ← payload value 0
  ok (exchange_domain ++ (drop 16 bytes ++ (from_hex ephemeral ++ from_hex controller_public)))

abbrev pub op_text : Op → List ℕ
op_text bind = codes "BIND"
op_text arm = codes "ARM"
op_text run = codes "RUN"

-- The line up to the signature.
unfoldable pub frame_front : Request → ℕ → List ℕ
frame_front r duration =
    codes "H2 "
    ++ (op_text r.op
        ++ b' '
          ∷ (decimal r.generation
              ++ b' '
                ∷ (decimal (r.sequence + 1)
                    ++ b' '
                      ∷ (decimal r.challenge
                          ++ b' ' ∷ (decimal r.issued ++ b' ' ∷ (decimal duration ++ b' ' ∷ []))))))

-- The text before the signature of a BIND, and the tests on it and on the duration.
abbrev pub frame_extra : Op → ℕ → Option (List ℕ) → Result (List ℕ)
frame_extra bind duration (some ephemeral) =
    if duration == 0 && is_hex_of 64 ephemeral then ok (ephemeral ++ b' ' ∷ []) else err value_error
frame_extra bind duration none = err value_error
frame_extra _ duration ephemeral =
    if leb 1 duration && leb duration 200 then ok [] else err value_error

abbrev pub signature_size : Op → ℕ
signature_size bind = 128
signature_size _ = 64

-- `frame` of a request that passed `context`.
unfoldable pub frame_of : Request → List ℕ → ℕ → Option (List ℕ) → Result (List ℕ)
unfolding frame_front is_hex_of
frame_of r signature duration ephemeral = do
  raise_if (not (is_hex_of (signature_size r.op) signature)) value_error
  extra ← frame_extra r.op duration ephemeral
  ok (frame_front r duration ++ (extra ++ (signature ++ 10 ∷ [])))

pub frame : Json → List ℕ → ℕ → Option (List ℕ) → Result (List ℕ)
unfolding context frame_of
frame value signature duration ephemeral = do
  r ← context value
  frame_of r signature duration ephemeral
