-- ===== src/Led/Link/Answered.antt =====
-- What the line of an answer says that `PermitLink.wire` of permit_link.py accepts.
use haetae.Prelude.{
  ℕ, ◌≡◌, refl, sym, ap, ◌∙◌, subst, arith, Bool, true, false, not, ◌||◌, List, [], ◌∷◌, all,
  length, codes, ltb, ◌==◌, bytes_eq, bytes_eq-eq, ap₂, if◌then◌else◌,
}
use haetae.Prelude.Decimal.{join}
use haetae.Python.{
  Error, Result, ok, err, value_error, link_error, >>=-eq-ok, ok-injective, ◌>>◌, raise_if,
}
use haetae.Led.Protocol.{Op, bind, arm, run, Request, is_hex_of}
use haetae.Led.Protocol.Requests.{IsRequest, is_hex_of-HexOf}
use haetae.Led.Link.{
  State, bound, armed, on, Port, checked_context, board_answer, exchanged, write_all, read_line,
  split_spaces, state_of, is_number, int_of, is_state_of,
}

pub went_on :
    {A : Type 0} (bad : Bool) (e : Error) (rest : Result A) {a : A}
    → (do raise_if bad e; rest) ≡ ok a
    → (bad ≡ false) × (rest ≡ ok a)
went_on true e rest h = cc
went_on false e rest h = (refl, h)

no_bytes : (xs : List ℕ) → not (length xs == 0) ≡ false → xs ≡ []
no_bytes [] h = refl
no_bytes (x ∷ xs) h = absurd (ground arith)

pub chosen :
    {A : Type 0} (test : Bool) (x y : A) (e : Error)
    → (if test then ok x else err e) ≡ ok y
    → (test ≡ true) × (x ≡ y)
chosen true x y e h = (refl, ok-injective h)
chosen false x y e h = cc

pub checked_context-IsRequest : (r q : Request) → checked_context r ≡ ok q → (r ≡ q) × IsRequest r
unfolding checked_context
checked_context-IsRequest r q h =
    let (t, e) = chosen _ r q value_error h in
    (
      e,
      record {
        its_install = is_hex_of-HexOf 32 r.install (ground arith);
        its_nonce = is_hex_of-HexOf 32 r.nonce (ground arith);
        its_epoch = ground arith;
        its_generation = ground arith;
        its_sequence = ground arith;
        its_challenge = ground arith;
        its_issued = ground arith;
      },
    )

-- The word of an answer for the state that an action leads to.
abbrev pub state_text : Op → List ℕ
state_text bind = codes "BOUND"
state_text arm = codes "ARMED"
state_text run = codes "ON"

-- The line of an answer: the words of the protocol, of the installation and of the state around the
-- numbers and the nonce of the value.
pub record Reads (install state : List ℕ) (line : List ℕ) (value : Request) : Type 0 where
  pub epoch : List ℕ
  pub generation : List ℕ
  pub sequence : List ℕ
  pub challenge : List ℕ
  pub issued : List ℕ
  pub last : List ℕ
  pub its_line :
      line
      ≡ join b' ' (
          codes "H2"
          ∷ codes "OK"
          ∷ install
          ∷ epoch
          ∷ generation
          ∷ sequence
          ∷ challenge
          ∷ issued
          ∷ value.nonce
          ∷ state
          ∷ last
          ∷ [])
  pub its_epoch : value.epoch ≡ int_of 0 epoch
  pub its_generation : value.generation ≡ int_of 0 generation
  pub its_sequence : value.sequence ≡ int_of 0 sequence
  pub its_challenge : value.challenge ≡ int_of 0 challenge
  pub its_issued : value.issued ≡ int_of 0 issued

with_char :
    (c : ℕ) (words : List (List ℕ)) (rest : List ℕ) (space : Bool)
    → (c == b' ') ≡ space
    → join b' ' words ≡ rest
    → (words ≡ [] → ⊥)
    → join b' ' (
        if space
        then [] ∷ words
        else elim words [ [] ↦ (c ∷ []) ∷ [] | word ∷ others ↦ (c ∷ word) ∷ others ])
      ≡ c ∷ rest
unfolding join
with_char c [] rest space e h some_word = absurd (some_word refl)
with_char c (w ∷ ws) rest true e h some_word =
    let same : b' ' ≡ c = ground arith in ap₂ (λ x xs. x ∷ xs) same h
with_char c (w ∷ []) rest false e h some_word = ap (λ xs. c ∷ xs) h
with_char c (w ∷ v ∷ vs) rest false e h some_word = ap (λ xs. c ∷ xs) h

some_word-if :
    (c : ℕ) (words : List (List ℕ)) (space : Bool)
    → (if space
        then [] ∷ words
        else elim words [ [] ↦ (c ∷ []) ∷ [] | word ∷ others ↦ (c ∷ word) ∷ others ])
      ≡ []
    → ⊥
some_word-if c words true h = cc
some_word-if c [] false h = cc
some_word-if c (w ∷ ws) false h = cc

split_spaces-some : (line : List ℕ) → split_spaces line ≡ [] → ⊥
unfolding split_spaces
split_spaces-some [] h = cc
split_spaces-some (c ∷ rest) h = some_word-if c (split_spaces rest) (c == b' ') h

join-split_spaces : (line : List ℕ) → join b' ' (split_spaces line) ≡ line
unfolding split_spaces join
join-split_spaces [] = refl
join-split_spaces (c ∷ rest) =
    with_char c (split_spaces rest) rest (c == b' ') refl (join-split_spaces rest)
      (split_spaces-some rest)

pub state_of-text :
    (op : Op) (text : List ℕ) (state : State)
    → state_of text ≡ ok state
    → is_state_of op state ≡ true
    → text ≡ state_text op
state_of-text bind text bound h t = bytes_eq-eq _ _ (ground arith)
state_of-text arm text armed h t = bytes_eq-eq _ _ (ground arith)
state_of-text run text on h t = bytes_eq-eq _ _ (ground arith)
state_of-text _ text _ h t = cc

-- An answer that passes is a request for RUN of this installation.
board_answer-Reads :
    (install line : List ℕ) (fields : List (List ℕ)) (value : Request) (state : State)
    → line ≡ join b' ' fields
    → board_answer install fields ≡ ok (value, state)
    → (text : List ℕ) × (state_of text ≡ ok state)
      × (value.install ≡ install)
      × IsRequest value
      × Reads install text line value
unfolding board_answer
board_answer-Reads install line
      (h2 ∷ okay ∷ id ∷ epoch ∷ generation ∷ sequence ∷ challenge ∷ issued ∷ nonce ∷ text ∷ last
        ∷ [])
      value state whole h =
    let (tests, h0) =
      went_on
        (not (bytes_eq h2 (codes "H2"))
          || not (bytes_eq okay (codes "OK"))
          || not (bytes_eq id install)
          || not (all is_number (epoch ∷ generation ∷ sequence ∷ challenge ∷ issued ∷ []))
          || not (is_hex_of 32 nonce))
        link_error _ h in
    let (s, hs, h1) = >>=-eq-ok (state_of text) _ h0 in
    let asked : Request = record {
      install = install;
      epoch = int_of 0 epoch;
      generation = int_of 0 generation;
      sequence = int_of 0 sequence;
      challenge = int_of 0 challenge;
      issued = int_of 0 issued;
      nonce = nonce;
      op = run;
    } in
    let (q, hq, h2') = >>=-eq-ok (checked_context asked) _ h1 in
    let (e, good) = checked_context-IsRequest asked q hq in
    let same : q ≡ value = ap (λ x. x.0) (ok-injective h2') in
    let led : s ≡ state = ap (λ x. x.1) (ok-injective h2') in
    let w2 : h2 ≡ codes "H2" = bytes_eq-eq _ _ (ground arith) in
    let wo : okay ≡ codes "OK" = bytes_eq-eq _ _ (ground arith) in
    let wi : id ≡ install = bytes_eq-eq _ _ (ground arith) in
    let (here, well, read) =
      subst (λ v. (v.install ≡ install) × IsRequest v × Reads install text line v) (e ∙ same)
        (
          refl,
          good,
          record {
            epoch = epoch;
            generation = generation;
            sequence = sequence;
            challenge = challenge;
            issued = issued;
            last = last;
            its_line = whole ∙ rw (w2, wo, wi) refl;
            its_epoch = refl;
            its_generation = refl;
            its_sequence = refl;
            its_challenge = refl;
            its_issued = refl;
          },
        ) in
    (text, hs ∙ ap ok led, here, well, read)
board_answer-Reads install line _ value state whole h = cc

pub exchanged-Reads :
    (install raw : List ℕ) (port : Port) (value : Request) (state : State)
    → exchanged install raw port ≡ ok (value, state)
    → (line : List ℕ) × (text : List ℕ) × (read_line [] port.reads ≡ ok (line, []))
      × (state_of text ≡ ok state)
      × (value.install ≡ install)
      × IsRequest value
      × Reads install text line value
unfolding exchanged
exchanged-Reads install raw port value state h =
    let (_, _, h1) = >>=-eq-ok (write_all raw port.writes) _ h in
    let (parts, got, h2) = >>=-eq-ok (read_line [] port.reads) _ h1 in
    let (_, h3) = went_on (not (all (λ c. ltb c 128) parts.0)) value_error _ h2 in
    let (alone, h4) = went_on (not (length parts.1 == 0)) link_error _ h3 in
    let (text, word, here, good, its) =
      board_answer-Reads install parts.0 (split_spaces parts.0) value state
        (sym (join-split_spaces parts.0)) h4 in
    (parts.0, text, got ∙ ap (λ x. ok (parts.0, x)) (no_bytes parts.1 alone), word, here, good, its)
