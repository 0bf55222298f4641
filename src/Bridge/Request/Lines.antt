-- ===== src/Bridge/Request/Lines.antt =====
-- The answers are the lines of the byte stream, in order, however it is cut into chunks.
use haetae.Prelude.{
  ℕ, ◌+◌, ◌<◌, ◌≤◌, ◌≡◌, ◌∙◌, arith, List, [], ◌∷◌, ◌++◌, some, inl, inr, Option-cases, length,
}
use haetae.Python.{Result, ok}
use haetae.Bridge.Request.{Read, timed_out, closed, chunk, max_bytes, partition, receive}
use mathlib.Core.List.{append_assoc}

-- All bytes that the pipe is still to deliver.
abbrev pub bytes_of : List Read → List ℕ
bytes_of [] = []
bytes_of (timed_out ∷ reads) = bytes_of reads
bytes_of (closed ∷ reads) = bytes_of reads
bytes_of (chunk bytes ∷ reads) = bytes ++ bytes_of reads

partition-append :
    (xs ys line rest : List ℕ)
    → partition xs ≡ some (line, rest)
    → partition (xs ++ ys) ≡ some (line, rest ++ ys)
unfolding partition
partition-append [] ys line rest h = cc
partition-append (x ∷ xs) ys line rest h = elim (Option-cases (partition xs)) [
  | inl e ↦ ground (arith, e)
  | inr ((l, r), e) ↦ ground (arith, e, partition-append xs ys l r e)
]

-- Where the buffer holds a line already, no read is made.
at_once :
    (buffer line line' buffer' : List ℕ) (reads reads' : List Read) (rest : List ℕ)
    → partition buffer ≡ some (line', rest)
    → ◌≡◌ {A = Result (List ℕ) × List ℕ × List Read}
        (ok line', rest, reads)
        (ok line, buffer', reads')
    → partition (buffer ++ bytes_of reads) ≡ some (line, buffer' ++ bytes_of reads')
at_once buffer line line' buffer' reads reads' rest e h =
    partition-append buffer (bytes_of reads) line' rest e ∙ ground arith

-- A line that is received is the first line of the stream, and the stream goes on behind it.
pub receive-partition :
    (buffer : List ℕ) (reads : List Read) (line buffer' : List ℕ) (reads' : List Read)
    → receive buffer reads ≡ (ok line, buffer', reads')
    → partition (buffer ++ bytes_of reads) ≡ some (line, buffer' ++ bytes_of reads')
unfolding receive
receive-partition buffer [] line b' r' h = elim (Option-cases (partition buffer)) [
  | inl e ↦ ground (arith, e)
  | inr ((l, r), e) ↦ at_once buffer line l b' [] r' r e (rw (e, receive) at h)
]
receive-partition buffer (timed_out ∷ reads) line b' r' h = elim (Option-cases (partition buffer)) [
  | inl e ↦ ground (arith, e)
  | inr ((l, r), e) ↦ at_once buffer line l b' (timed_out ∷ reads) r' r e (rw (e, receive) at h)
]
receive-partition buffer (closed ∷ reads) line b' r' h = elim (Option-cases (partition buffer)) [
  | inl e ↦ ground (arith, e)
  | inr ((l, r), e) ↦ at_once buffer line l b' (closed ∷ reads) r' r e (rw (e, receive) at h)
]
receive-partition buffer (chunk bytes ∷ reads) line b' r' h =
    elim (Option-cases (partition buffer)) [
      | inl e ↦
          rw (← append_assoc)
            (receive-partition (buffer ++ bytes) reads line b' r' (ground (arith, e)))
      | inr ((l, r), e) ↦
          at_once buffer line l b' (chunk bytes ∷ reads) r' r e (rw (e, receive) at h)
    ]

length-partition :
    (xs line rest : List ℕ)
    → partition xs ≡ some (line, rest)
    → length line + length rest < length xs
unfolding partition
length-partition [] line rest h = cc
length-partition (x ∷ xs) line rest h = elim (Option-cases (partition xs)) [
  | inl e ↦ ground (arith, e)
  | inr ((l, r), e) ↦ ground (arith, e, length-partition xs l r e)
]

-- A line and what stays in the buffer behind it are within the limit on the buffer.
pub receive-le :
    (buffer : List ℕ) (reads : List Read) (line buffer' : List ℕ) (reads' : List Read)
    → length buffer ≤ max_bytes
    → receive buffer reads ≡ (ok line, buffer', reads')
    → length line + length buffer' < max_bytes
unfolding receive
receive-le buffer [] line b' r' small h = ground (arith, length-partition buffer line b')
receive-le buffer (timed_out ∷ reads) line b' r' small h =
    ground (arith, length-partition buffer line b')
receive-le buffer (closed ∷ reads) line b' r' small h =
    ground (arith, length-partition buffer line b')
receive-le buffer (chunk bytes ∷ reads) line b' r' small h =
    ground (arith, length-partition buffer line b', receive-le (buffer ++ bytes) reads line b' r')
