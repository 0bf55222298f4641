-- ===== src/Tests/Link.antt =====
-- A board that acknowledges an ARM, and one that is silent (permit_link.py).
use haetae.Prelude.{◌≡◌, refl, none, some, [], ◌∷◌, ◌++◌, codes}
use haetae.Prelude.Bytes.{is_hex}
use haetae.Prelude.Decimal.{digits, decimal}
use haetae.Python.{ok, err, link_error}
use haetae.Led.Protocol.{Request, arm, run, is_hex_of, frame_front, frame_of}
use haetae.Led.Link.{
  PermitLink, Port, wrote, got, read_timeout, hello, query, execute, permit_line, wire, exchanged,
  write_all, read_line, split_spaces, is_number, int_of, checked_context, board_answer,
}
use haetae.Led.Link.Acknowledged.{Executed, execute-Follows}
use haetae.Tests.Led.{board, key, request_of}

abbrev link : PermitLink
link = record { install = codes board; current = some (record (request_of arm 1 2) { op = run }) }

-- Part of the answer comes with the second read.
abbrev port : Port
port = record {
  writes = wrote 20 ∷ wrote 200 ∷ [];
  reads =
      got (codes "H2 OK 000102030405060708090a0b0c0d0e0f 3 4 2 ")
      ∷ got (codes "3 1010 ff00ff00ff00ff00ff00ff00ff00ff00 ARMED 0" ++ 10 ∷ [])
      ∷ [];
}

abbrev answer : Request
answer = record (request_of run 2 3) { issued = 1010 }

executed :
    execute (request_of arm 1 2) key 200 none port link
    ≡ (ok tt, record link { current = some answer })
unfolding execute permit_line checked_context is_hex_of is_hex frame_of frame_front decimal digits
    wire exchanged write_all read_line split_spaces board_answer is_number int_of
executed = refl

execute-Follows_example : Executed (request_of arm 1 2) port (record link { current = some answer })
execute-Follows_example =
    execute-Follows (request_of arm 1 2) key 200 none port link
      (record link { current = some answer }) refl executed

silent :
    (query hello
      (record { writes = wrote 9 ∷ []; reads = got (codes "H2 ") ∷ read_timeout ∷ [] })
      link).0
    ≡ err link_error
unfolding query wire exchanged write_all read_line
silent = refl
