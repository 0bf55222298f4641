-- ===== src/Tests/Operator.antt =====
-- Operator sessions of permit_authorizer.py with a toy cryptography and a gate that always allows.
use haetae.Prelude.{ℕ, ◌≡◌, refl, true, none, some, List, [], ◌∷◌, codes}
use haetae.Prelude.Bytes.{is_hex, little_endian}
use haetae.Prelude.Int.{pos}
use haetae.Python.{Result, ok, err, value_error, at}
use haetae.Python.Values.{Json, has_exactly, find?, find_or, has}
use haetae.Led.Protocol.{
  is_hex_of, identity, counter, op_of, checked, context, nibble, from_hex, pack_numbers,
  fields_bytes, permit_bytes, payload, bind_payload, decode_json,
}
use haetae.Led.Authorizer.{
  Config, Crypto, Around, allow, authorizer_failure, permit, terminal, init, advance, authorize,
  decide, proceed, bind_session, attempt, approve, serve,
}
use haetae.Led.Authorizer.Grants.{Outcome, approve-Outcome}
use haetae.Led.Authorizer.History.{Chain, serve-Chain}
use haetae.Tests.Led.{board, key, reported}

abbrev toy : Crypto
toy = record {
  public_text = λ _. key;
  agree = λ _ _. ok (1 ∷ []);
  keyed_digest = λ k bytes. 2 ∷ k;
  keyed_text = λ k bytes. 3 ∷ k;
  sign_text = λ bytes. 4 ∷ [];
}

abbrev config : Config
config = record {
  install = codes board;
  controller_public = key;
  scenario = allow;
  seconds = 3000000000;
}

abbrev around : ℕ → Around
around reading = record {
  first_reading = 1000000000;
  reading = reading;
  cycle = λ fault. ok true;
  remaining = ok (pos 30000000);
  ephemeral_key = 5 ∷ [];
}

-- The length of a line says which request it stands for.
abbrev loads : List ℕ → Result Json
loads [] = ok (reported "BIND" 0 1)
loads (x ∷ []) = ok (reported "ARM" 1 2)
loads (x ∷ y ∷ []) = ok (reported "RUN" 2 3)
loads _ = err value_error

abbrev lines : List (List ℕ × Around)
lines =
    ([], around 1000000000)
    ∷ (0 ∷ [], around 1000000000)
    ∷ (0 ∷ 0 ∷ [], around 1200000000)
    ∷ (0 ∷ 0 ∷ [], around 1300000000)
    ∷ []

-- A RUN that comes again ends the session.
replies :
    serve loads toy config init lines
    ≡ (reported "BIND" 0 1, permit (4 ∷ []) (some key) 0 (pos 500000000))
      ∷ (reported "ARM" 1 2, permit (3 ∷ 2 ∷ 1 ∷ []) none 200 (pos 30000000))
      ∷ (reported "RUN" 2 3, permit (3 ∷ 2 ∷ 1 ∷ []) none 200 (pos 30000000))
      ∷ (reported "RUN" 2 3, terminal authorizer_failure)
      ∷ []
unfolding at bind_payload payload permit_bytes fields_bytes from_hex nibble pack_numbers
    little_endian context has_exactly has checked identity is_hex_of is_hex counter op_of find?
    find_or decode_json serve approve attempt bind_session proceed decide authorize advance
replies = refl

serve-Chain_example : Chain config none (serve loads toy config init lines)
serve-Chain_example = serve-Chain loads toy config lines

approve-Outcome_example :
    Outcome toy config
      (around 1000000000)
      (reported "BIND" 0 1)
      init
      (approve toy config (around 1000000000) (reported "BIND" 0 1) init)
approve-Outcome_example = approve-Outcome toy config (around 1000000000) (reported "BIND" 0 1) init
