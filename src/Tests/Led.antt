-- ===== src/Tests/Led.antt =====
-- Requests of the LED board at concrete values (permit_protocol.py).
use haetae.Prelude.{ℕ, ◌≡◌, ◌≢◌, refl, String, List, [], ◌∷◌, codes}
use haetae.Prelude.Bytes.{is_hex, little_endian}
use haetae.Prelude.Int.{pos}
use haetae.Python.{ok, err, value_error, at}
use haetae.Python.Values.{Json, has_exactly, int, str, obj, end, field, find?, find_or, has}
use haetae.Led.Protocol.{
  Request, Op, arm, is_hex_of, identity, counter, op_of, checked, context, nibble, from_hex,
  pack_numbers, fields_bytes, permit_bytes, payload, bind_payload,
}
use haetae.Led.Protocol.Requests.{IsRequest, context-IsRequest}
use haetae.Led.Protocol.Payloads.{payload-injective, bind_payload-ne-payload}

abbrev pub board : String
board = "000102030405060708090a0b0c0d0e0f"

abbrev pub nonce : String
nonce = "ff00ff00ff00ff00ff00ff00ff00ff00"

abbrev pub key : List ℕ
key = codes "00112233445566778899aabbccddeeff00112233445566778899aabbccddeeff"

abbrev pub reported : String → ℕ → ℕ → Json
reported op sequence challenge = obj (
    field "install" (str board) (
      field "epoch" (int (pos 3)) (
        field "generation" (int (pos 4)) (
          field "sequence" (int (pos sequence)) (
            field "challenge" (int (pos challenge)) (
              field "issued" (int (pos 1000))
                (field "nonce" (str nonce) (field "op" (str op) end))))))))

abbrev pub request_of : Op → ℕ → ℕ → Request
request_of op sequence challenge = record {
  install = codes board;
  epoch = 3;
  generation = 4;
  sequence = sequence;
  challenge = challenge;
  issued = 1000;
  nonce = codes nonce;
  op = op;
}

armed : context (reported "ARM" 1 2) ≡ ok (request_of arm 1 2)
unfolding context has_exactly has checked identity is_hex_of is_hex counter op_of find? find_or
armed = refl

-- A counter that has no successor is refused.
exhausted : context (reported "RUN" 4294967295 2) ≡ err value_error
unfolding context has_exactly has checked identity is_hex_of is_hex counter op_of find? find_or
exhausted = refl

context-IsRequest_example : IsRequest (request_of arm 1 2)
context-IsRequest_example = context-IsRequest (reported "ARM" 1 2) (request_of arm 1 2) armed

abbrev armed_bytes : List ℕ
armed_bytes =
    72 ∷ 65 ∷ 69 ∷ 84 ∷ 65 ∷ 69 ∷ 45 ∷ 76 ∷ 69 ∷ 68 ∷ 45 ∷ 72 ∷ 50 ∷ 0 ∷ 0 ∷ 0 ∷ 0 ∷ 1 ∷ 2 ∷ 3 ∷ 4
    ∷ 5 ∷ 6 ∷ 7 ∷ 8 ∷ 9 ∷ 10 ∷ 11 ∷ 12 ∷ 13 ∷ 14 ∷ 15 ∷ 3 ∷ 0 ∷ 0 ∷ 0 ∷ 4 ∷ 0 ∷ 0 ∷ 0 ∷ 2 ∷ 0 ∷ 0
    ∷ 0 ∷ 2 ∷ 0 ∷ 0 ∷ 0 ∷ 232 ∷ 3 ∷ 0 ∷ 0 ∷ 200 ∷ 0 ∷ 0 ∷ 0 ∷ 0 ∷ 0 ∷ 0 ∷ 0 ∷ 255 ∷ 0 ∷ 255 ∷ 0
    ∷ 255 ∷ 0 ∷ 255 ∷ 0 ∷ 255 ∷ 0 ∷ 255 ∷ 0 ∷ 255 ∷ 0 ∷ 255 ∷ 0 ∷ []

armed_payload : payload (reported "ARM" 1 2) 200 ≡ ok armed_bytes
unfolding payload permit_bytes fields_bytes from_hex nibble pack_numbers little_endian context
    has_exactly has checked identity is_hex_of is_hex counter op_of find? find_or
armed_payload = refl

-- The order of the fields on the wire is free.
abbrev reordered : Json
reordered = obj (
    field "op" (str "ARM") (
      field "epoch" (int (pos 3)) (
        field "generation" (int (pos 4)) (
          field "sequence" (int (pos 1)) (
            field "challenge" (int (pos 2)) (
              field "issued" (int (pos 1000))
                (field "nonce" (str nonce) (field "install" (str board) end))))))))

reordered_payload : payload reordered 200 ≡ ok armed_bytes
unfolding payload permit_bytes fields_bytes from_hex nibble pack_numbers little_endian context
    has_exactly has checked identity is_hex_of is_hex counter op_of find? find_or
reordered_payload = refl

abbrev lease : ℕ
lease = 200

payload-injective_example : (context (reported "ARM" 1 2) ≡ context reordered) × (lease ≡ lease)
payload-injective_example =
    payload-injective (reported "ARM" 1 2) reordered lease lease armed_bytes armed_payload
      reordered_payload

abbrev bound_bytes : List ℕ
bound_bytes = elim (bind_payload (reported "BIND" 0 1) key key) [ ok b ↦ b | err _ ↦ [] ]

bound : bind_payload (reported "BIND" 0 1) key key ≡ ok bound_bytes
unfolding at bind_payload payload permit_bytes fields_bytes from_hex nibble pack_numbers
    little_endian context has_exactly has checked identity is_hex_of is_hex counter op_of find?
    find_or
bound = refl

bind_payload-ne-payload_example : bound_bytes ≢ armed_bytes
bind_payload-ne-payload_example =
    bind_payload-ne-payload (reported "BIND" 0 1) (reported "ARM" 1 2) key key bound_bytes
      armed_bytes 200 bound armed_payload
