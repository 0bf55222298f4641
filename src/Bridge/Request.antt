-- ===== src/Bridge/Request.antt =====
-- `Bridge.request` of ros/haetae_gate/bridge.py: one JSON line out, one JSON line back, over a pipe
-- that delivers bytes in chunks. `json.dumps` and `json.loads` are parameters; the pipe and the
-- clock are the list of what each `select` and `os.read` gives. The lock serialises callers, so a
-- request is one step.
pub mod Lines
pub mod Answers
use haetae.Prelude.{
  ℕ, ◌-◌, ◌^◌, ◌+◌, Bool, true, false, not, List, [], ◌∷◌, ◌++◌, Option, none, some, length, ltb,
  ◌==◌, if◌then◌else◌,
}
use haetae.Prelude.Int.{ℤ, pos, negsuc}
use haetae.Python.{
  Error, Result, ok, err, value_error, key_error, type_error, bridge_failure, overflow_error, ◌>>=◌,
  ◌>>◌, raise_if, at,
}
use haetae.Python.Double.{is_finite}
use haetae.Python.Values.{Json, int, float}

-- `json.dumps(..., allow_nan=False).encode()` and `json.loads`.
pub record Codec : Type 0 where
  pub dumps : Json → Result (List ℕ)
  pub loads : List ℕ → Result Json

-- What the wait for the next bytes gives: the deadline passes, the pipe is closed, or bytes.
pub data Read : Type 0 where
  timed_out closed : Read
  chunk : List ℕ → Read

-- The fields of the object, and its child process as far as a request sees it.
pub record Bridge : Type 0 where
  pub buffer : List ℕ
  pub running : Bool
  pub writable : Bool
  pub reads : List Read

abbrev pub newline : ℕ
newline = 10

-- `buffer.partition(b"\n")`, where there is a newline.
unfoldable pub partition : List ℕ → Option (List ℕ × List ℕ)
partition [] = none
partition (c ∷ rest) =
    let later = partition rest in
    if c == newline
    then some ([], rest)
    else elim later [ none ↦ none | some (line, after) ↦ some (c ∷ line, after) ]

abbrev pub max_bytes : ℕ
max_bytes = 1048576

-- The loop `while b"\n" not in self.buffer`, and the partition behind it. It returns the line or
-- the failure, the buffer and the reads that are left. With no read left the deadline passes.
unfoldable pub receive : List ℕ → List Read → Result (List ℕ) × List ℕ × List Read
unfolding partition
receive buffer [] = elim (partition buffer) [
  | some (line, rest) ↦ (ok line, rest, [])
  | none ↦ (err bridge_failure, buffer, [])
]
receive buffer (timed_out ∷ reads) = elim (partition buffer) [
  | some (line, rest) ↦ (ok line, rest, timed_out ∷ reads)
  | none ↦ (err bridge_failure, buffer, reads)
]
receive buffer (closed ∷ reads) = elim (partition buffer) [
  | some (line, rest) ↦ (ok line, rest, closed ∷ reads)
  | none ↦ (err bridge_failure, buffer, reads)
]
receive buffer (chunk bytes ∷ reads) = elim (partition buffer) [
  | some (line, rest) ↦ (ok line, rest, chunk bytes ∷ reads)
  | none ↦
      let more = receive (buffer ++ bytes) reads in
      if ltb max_bytes (length (buffer ++ bytes))
      then (err bridge_failure, buffer ++ bytes, reads)
      else more
]

-- `math.isfinite(n)` of an int converts it: OverflowError from 2 ^ 1024 - 2 ^ 970 on.
int_is_finite : ℤ → Result Bool
int_is_finite (pos n) = if ltb n (2 ^ 1024 - 2 ^ 970) then ok true else err overflow_error
int_is_finite (negsuc n) = if ltb (n + 1) (2 ^ 1024 - 2 ^ 970) then ok true else err overflow_error

-- The test of one velocity: no number, or not finite.
unfoldable pub is_invalid_velocity : Json → Result Bool
unfolding int_is_finite
is_invalid_velocity (int n) = do finite ← int_is_finite n; ok (not finite)
is_invalid_velocity (float bits) = ok (not (is_finite bits))
is_invalid_velocity _ = ok true

-- The body of the `try` behind the partition.
unfoldable pub checked_answer : Codec → List ℕ → Result Json
unfolding is_invalid_velocity
checked_answer codec line = do
  answer ← codec.loads line
  cmd ← at "cmd" answer
  linear ← at "linear" cmd
  bad_linear ← is_invalid_velocity linear
  raise_if bad_linear value_error
  angular ← at "angular" cmd
  bad_angular ← is_invalid_velocity angular
  raise_if bad_angular value_error
  ok answer

-- `except (ValueError, KeyError, TypeError) as exc: raise BridgeFailure(...)`
abbrev pub as_bridge_failure {ℓ} : {A : Type ℓ} → Result A → Result A
as_bridge_failure (ok a) = ok a
as_bridge_failure (err value_error) = err bridge_failure
as_bridge_failure (err key_error) = err bridge_failure
as_bridge_failure (err type_error) = err bridge_failure
as_bridge_failure (err e) = err e

-- The answer to one line, and the bridge with what is left of the stream.
abbrev pub answer_line :
    Codec → Bridge → Result (List ℕ) × List ℕ × List Read → Result Json × Bridge
answer_line codec b (ok line, buffer, reads) =
    (as_bridge_failure (checked_answer codec line), record b { buffer = buffer; reads = reads })
answer_line codec b (err e, buffer, reads) = (err e, record b { buffer = buffer; reads = reads })

-- `raw` is the encoded message.
abbrev pub exchange : Codec → List ℕ → Bridge → Result Json × Bridge
exchange codec raw b =
    if ltb max_bytes (length raw)
    then (err bridge_failure, b)
    else if not b.running
    then (err bridge_failure, b)
    else if not b.writable
    then (err bridge_failure, b)
    else answer_line codec b (receive b.buffer b.reads)

unfoldable pub request : Codec → Json → Bridge → Result Json × Bridge
request codec message b = elim (codec.dumps message) [
  | err e ↦ (err e, b)
  | ok text ↦ exchange codec (text ++ newline ∷ []) b
]
