-- ===== src/Led/Link.antt =====
-- `PermitLink` of tools/permit_link.py: the board's answers, and the checks of the relay on them.
-- The port enters as the outcomes of the writes and reads, in order.
pub mod Answers
pub mod Answered
pub mod Acknowledged
use haetae.Prelude.{
  ℕ, ◌+◌, ◌-◌, ◌*◌, ◌||◌, Bool, true, false, not, ◌&&◌, Option, none, some, List, [], ◌∷◌, ◌++◌,
  length, all, drop, codes, ltb, leb, ◌==◌, bytes_eq, if◌then◌else◌,
}
use haetae.Python.{Result, ok, err, value_error, type_error, link_error, ◌>>=◌, ◌>>◌, raise_if}
use haetae.Led.Protocol.{Op, Request, bind, arm, run, is_hex_of, max_u32, frame_of}
pub use Answers.{
  Write, write_timeout, wrote, Read, read_timeout, got, State, locked, bound, armed, on, state_of,
}
unfoldable pub use Answers.{
  write_all, read_line, split_spaces, is_number, int_of, checked_context, board_answer,
}

pub record PermitLink : Type 0 where
  pub install : List ℕ
  pub current : Option Request

-- What the port does to one exchange.
pub record Port : Type 0 where
  pub writes : List Write
  pub reads : List Read

-- `wire`, up to the answer. An answer that is not ASCII is a ValueError.
unfoldable pub exchanged : List ℕ → List ℕ → Port → Result (Request × State)
unfolding write_all read_line split_spaces board_answer
exchanged install raw port = do
  _ ← write_all raw port.writes
  (line, behind) ← read_line [] port.reads
  raise_if (not (all (λ c. ltb c 128) line)) value_error
  raise_if (not (length behind == 0)) link_error
  board_answer install (split_spaces line)

-- The link keeps the last answer that passed.
unfoldable pub wire : List ℕ → Port → PermitLink → Result State × PermitLink
unfolding exchanged
wire raw port link = elim (exchanged link.install raw port) [
  | err e ↦ (err e, link)
  | ok (value, state) ↦ (ok state, record link { current = some value })
]

pub data Query : Type 0 where
  hello status stop : Query

abbrev pub query_line : Query → List ℕ
query_line hello = codes "H2 HELLO" ++ 10 ∷ []
query_line status = codes "H2 STATUS" ++ 10 ∷ []
query_line stop = codes "H2 STOP" ++ 10 ∷ []

abbrev pub is_locked : State → Bool
is_locked locked = true
is_locked _ = false

-- The session is not the one of the answer before.
abbrev pub is_changed : Option Request → Request → Bool
is_changed none current = false
is_changed (some previous) current =
    not (current.epoch == previous.epoch)
    || not (current.generation == previous.generation)
    || not (current.sequence == previous.sequence)

-- What `query` refuses of an answer.
abbrev pub is_unexpected : Query → State → Option Request → Request → Bool
is_unexpected hello state previous current = not (is_locked state) || not (current.sequence == 0)
is_unexpected stop state previous current = not (is_locked state) || is_changed previous current
is_unexpected status state previous current = is_changed previous current

abbrev pub query_checked :
    Query → Option Request → Result State × PermitLink → Result State × PermitLink
query_checked q previous (err e, link) = (err e, link)
query_checked q previous (ok state, link) = (
  elim link.current [
    | none ↦ err type_error
    | some current ↦ if is_unexpected q state previous current then err link_error else ok state
  ],
  link,
)

-- `query` of one of its three words.
unfoldable pub query : Query → Port → PermitLink → Result State × PermitLink
unfolding wire
query q port link = query_checked q link.current (wire (query_line q) port link)

-- The permit has the fields of its action, and its duration.
abbrev pub is_permit_for : Op → ℕ → Option (List ℕ) → Bool
is_permit_for bind duration (some ephemeral) = duration == 0
is_permit_for bind duration none = false
is_permit_for _ duration (some ephemeral) = false
is_permit_for _ duration none = duration == 200

-- The state that the action leads to.
abbrev pub is_state_of : Op → State → Bool
is_state_of bind bound = true
is_state_of arm armed = true
is_state_of run on = true
is_state_of _ _ = false

abbrev pub is_acknowledged : Request → Request → Bool
is_acknowledged request current =
    current.sequence == request.sequence + 1
    && current.challenge == request.challenge + 1
    && current.epoch == request.epoch
    && current.generation == request.generation

abbrev pub acknowledge : Request → Result State × PermitLink → Result (Unit {0}) × PermitLink
acknowledge request (err e, link) = (err e, link)
acknowledge request (ok state, link) = (
  elim link.current [
    | none ↦ err type_error
    | some current ↦
        if is_state_of request.op state && is_acknowledged request current
        then ok tt
        else err link_error
  ],
  link,
)

-- The line that `execute` sends. The permit's fields have the types that the authorizer sends.
unfoldable pub permit_line : Request → List ℕ → ℕ → Option (List ℕ) → Result (List ℕ)
unfolding checked_context frame_of
permit_line request signature duration ephemeral = do
  raise_if (not (is_permit_for request.op duration ephemeral)) link_error
  r ← checked_context request
  frame_of r signature duration ephemeral

unfoldable pub execute :
    Request → List ℕ → ℕ → Option (List ℕ) → Port → PermitLink → Result (Unit {0}) × PermitLink
unfolding permit_line wire
execute request signature duration ephemeral port link =
    elim (permit_line request signature duration ephemeral) [
      | err e ↦ (err e, link)
      | ok raw ↦ acknowledge request (wire raw port link)
    ]

-- `dict(link.current, op=op)`
abbrev pub ask : Request → Op → Request
ask current op = record current { op = op }
