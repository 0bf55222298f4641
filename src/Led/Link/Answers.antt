-- ===== src/Led/Link/Answers.antt =====
-- The writes and reads of `PermitLink.wire` of tools/permit_link.py, and the grammar of the board's
-- answers.
use haetae.Prelude.{
  ℕ, ◌+◌, ◌-◌, ◌*◌, ◌||◌, Bool, false, not, ◌&&◌, Option, none, some, List, [], ◌∷◌, ◌++◌, length,
  all, drop, codes, ltb, leb, ◌==◌, bytes_eq, if◌then◌else◌,
}
use haetae.Python.{Result, ok, err, value_error, link_error, ◌>>=◌, ◌>>◌, raise_if}
use haetae.Led.Protocol.{Request, run, is_hex_of, max_u32}

-- The outcome of a wait with the call behind it: the deadline passed, or a number of bytes written,
-- or bytes read, of which none means that the port is closed.
pub data Write : Type 0 where
  write_timeout : Write
  wrote : ℕ → Write

pub data Read : Type 0 where
  read_timeout : Read
  got : List ℕ → Read

-- The loop of the writes. A list that ends early stands for the deadline.
unfoldable pub write_all : List ℕ → List Write → Result (Unit {0})
write_all [] writes = ok tt
write_all (x ∷ raw) [] = err link_error
write_all (x ∷ raw) (write_timeout ∷ writes) = err link_error
write_all (x ∷ raw) (wrote count ∷ writes) = do
  raise_if (count == 0) link_error
  write_all (drop count (x ∷ raw)) writes

-- `buffer.partition(b"\n")`, absent where there is no newline.
abbrev pub cut : List ℕ → Option (List ℕ × List ℕ)
cut [] = none
cut (c ∷ rest) =
    let later = cut rest in
    if c == 10
    then some ([], rest)
    else elim later [ none ↦ none | some (line, behind) ↦ some (c ∷ line, behind) ]

-- The loop of the reads: the line and what came behind it.
unfoldable pub read_line : List ℕ → List Read → Result (List ℕ × List ℕ)
read_line buffer [] = elim (cut buffer) [ none ↦ err link_error | some parts ↦ ok parts ]
read_line buffer (event ∷ events) = elim (cut buffer) [
  | some parts ↦ ok parts
  | none ↦ elim event [
    | read_timeout ↦ err link_error
    | got chunk ↦ do
      raise_if (length chunk == 0) link_error
      raise_if (ltb 160 (length (buffer ++ chunk))) link_error
      read_line (buffer ++ chunk) events
  ]
]

-- `text.split(" ")`
unfoldable pub split_spaces : List ℕ → List (List ℕ)
split_spaces [] = [] ∷ []
split_spaces (c ∷ rest) =
    let words = split_spaces rest in
    if c == b' '
    then [] ∷ words
    else elim words [ [] ↦ (c ∷ []) ∷ [] | word ∷ others ↦ (c ∷ word) ∷ others ]

abbrev pub is_digit : ℕ → Bool
is_digit c = leb b'0' c && leb c b'9'

-- `re.fullmatch(r"0|[1-9][0-9]{0,9}", text)`
unfoldable pub is_number : List ℕ → Bool
is_number [] = false
is_number (c ∷ rest) =
    (c == b'0' && length rest == 0)
    || (leb b'1' c && leb c b'9' && all is_digit rest && leb (length rest) 9)

-- `int(text)` of digits, behind the value of the digits before.
unfoldable pub int_of : ℕ → List ℕ → ℕ
int_of n [] = n
int_of n (c ∷ rest) = int_of (10 * n + (c - 48)) rest

-- What the board says of itself.
pub data State : Type 0 where
  locked bound armed on : State

abbrev pub state_of : List ℕ → Result State
state_of text =
    if bytes_eq text (codes "LOCKED")
    then ok locked
    else if bytes_eq text (codes "BOUND")
    then ok bound
    else if bytes_eq text (codes "ARMED")
    then ok armed
    else if bytes_eq text (codes "ON")
    then ok on
    else err link_error

-- `context` of a value whose fields have their types.
unfoldable pub checked_context : Request → Result Request
checked_context r =
    if is_hex_of 32 r.install
      && is_hex_of 32 r.nonce
      && all (λ n. leb n max_u32)
          (r.epoch ∷ r.generation ∷ r.sequence ∷ r.challenge ∷ r.issued ∷ [])
      && not (r.epoch == 0)
      && not (r.generation == 0)
      && not (r.challenge == 0)
      && not (r.sequence == max_u32)
    then ok r
    else err value_error

-- The eleven fields of an answer, of which the last is not read.
unfoldable pub board_answer : List ℕ → List (List ℕ) → Result (Request × State)
unfolding is_number int_of checked_context
board_answer install
      (h2 ∷ okay ∷ id ∷ epoch ∷ generation ∷ sequence ∷ challenge ∷ issued ∷ nonce ∷ state ∷ last
        ∷ []) =
    do
      raise_if
          (not (bytes_eq h2 (codes "H2"))
            || not (bytes_eq okay (codes "OK"))
            || not (bytes_eq id install)
            || not (all is_number (epoch ∷ generation ∷ sequence ∷ challenge ∷ issued ∷ []))
            || not (is_hex_of 32 nonce))
          link_error
      s ← state_of state
      value ← checked_context (record {
        install = install;
        epoch = int_of 0 epoch;
        generation = int_of 0 generation;
        sequence = int_of 0 sequence;
        challenge = int_of 0 challenge;
        issued = int_of 0 issued;
        nonce = nonce;
        op = run;
      })
      ok (value, s)
board_answer install _ = err link_error
