-- ===== src/Led/Protocol/Requests.antt =====
-- What `context` of permit_protocol.py guarantees of a request that it lets through.
use haetae.Prelude.{
  ℕ, ◌≤◌, ◌<◌, ◌≡◌, refl, subst, arith, Bool, true, false, ◌||◌, List, codes, length, all, ◌==◌,
  if◌then◌else◌,
}
use haetae.Prelude.Bytes.{is_hex}
use haetae.Prelude.Int.{pos, negsuc}
use haetae.Python.{Result, ok, err, value_error, ◌>>◌, raise_if, >>=-eq-ok, ok-injective}
use haetae.Python.Values.{Json, has_exactly, Fields, int, str, obj, find}
use haetae.Led.Protocol.{
  Request, names, is_hex_of, identity, max_u32, counter, op_of, checked, context,
}

abbrev pub HexOf : ℕ → List ℕ → Type 0
HexOf size text = (length text ≡ size) × (all is_hex text ≡ true)

-- A board that is initialised, with numbers of 32 bits and a sequence that has a successor.
pub record IsRequest (r : Request) : Type 0 where
  pub its_install : HexOf 32 r.install
  pub its_nonce : HexOf 32 r.nonce
  pub its_epoch : (0 < r.epoch) × (r.epoch ≤ max_u32)
  pub its_generation : (0 < r.generation) × (r.generation ≤ max_u32)
  pub its_sequence : r.sequence < max_u32
  pub its_challenge : (0 < r.challenge) × (r.challenge ≤ max_u32)
  pub its_issued : r.issued ≤ max_u32

pub passed :
    {A : Type 0} (bad : Bool) (rest : Result A) {a : A}
    → (do raise_if bad value_error; rest) ≡ ok a
    → (bad ≡ false) × (rest ≡ ok a)
passed true rest h = cc
passed false rest h = (refl, h)

chosen :
    {A : Type 0} (test : Bool) (x y : A)
    → (if test then ok x else err value_error) ≡ ok y
    → (test ≡ true) × (x ≡ y)
chosen true x y h = (refl, ok-injective h)
chosen false x y h = cc

pub is_hex_of-HexOf : (size : ℕ) (text : List ℕ) → is_hex_of size text ≡ true → HexOf size text
unfolding is_hex_of
is_hex_of-HexOf size text h = ground arith

identity-HexOf : (v : Json) (text : List ℕ) → identity v ≡ ok text → HexOf 32 text
unfolding identity
identity-HexOf (str s) text h =
    let (test, e) = chosen (is_hex_of 32 (codes s)) (codes s) text h in
    subst (HexOf 32) e (is_hex_of-HexOf 32 (codes s) test)
identity-HexOf _ text h = cc

counter-le : (v : Json) (n : ℕ) → counter v ≡ ok n → n ≤ max_u32
unfolding counter
counter-le (int (pos m)) n h = ground arith
counter-le (int (negsuc m)) n h = cc
counter-le _ n h = cc

checked_parts :
    (epoch generation sequence challenge : ℕ)
    → (epoch == 0 || generation == 0 || challenge == 0) ≡ false
    → (sequence == max_u32) ≡ false
    → epoch ≤ max_u32
    → generation ≤ max_u32
    → sequence ≤ max_u32
    → challenge ≤ max_u32
    → ((0 < epoch) × (epoch ≤ max_u32))
      × ((0 < generation) × (generation ≤ max_u32))
      × (sequence < max_u32)
      × ((0 < challenge) × (challenge ≤ max_u32))
checked_parts epoch generation sequence challenge a b c d e f = ground arith

exactly :
    (test : Bool) (m : Result Request) {r : Request}
    → (if test then m else err value_error) ≡ ok r
    → m ≡ ok r
exactly true m h = h
exactly false m h = cc

checked-IsRequest : (fields : Fields) (r : Request) → checked fields ≡ ok r → IsRequest r
unfolding checked
checked-IsRequest fields r h =
    let (install, hi, h1) = >>=-eq-ok (identity (find "install" fields)) _ h in
    let (nonce, hn, h2) = >>=-eq-ok (identity (find "nonce" fields)) _ h1 in
    let (epoch, he, h3) = >>=-eq-ok (counter (find "epoch" fields)) _ h2 in
    let (generation, hg, h4) = >>=-eq-ok (counter (find "generation" fields)) _ h3 in
    let (sequence, hs, h5) = >>=-eq-ok (counter (find "sequence" fields)) _ h4 in
    let (challenge, hc, h6) = >>=-eq-ok (counter (find "challenge" fields)) _ h5 in
    let (issued, hd, h7) = >>=-eq-ok (counter (find "issued" fields)) _ h6 in
    let (zero', h8) = passed (epoch == 0 || generation == 0 || challenge == 0) _ h7 in
    let (last, h9) = passed (sequence == max_u32) _ h8 in
    let (op, ho, h10) = >>=-eq-ok (op_of (find "op" fields)) _ h9 in
    let parts =
      checked_parts epoch generation sequence challenge zero' last (counter-le _ epoch he)
        (counter-le _ generation hg) (counter-le _ sequence hs) (counter-le _ challenge hc) in
    subst IsRequest (ok-injective h10) (record {
      its_install = identity-HexOf _ install hi;
      its_nonce = identity-HexOf _ nonce hn;
      its_epoch = parts.0;
      its_generation = parts.1;
      its_sequence = parts.2;
      its_challenge = parts.3;
      its_issued = counter-le _ issued hd;
    })

-- Whatever JSON the relay sends, a request that is let through is well formed.
pub context-IsRequest : (value : Json) (r : Request) → context value ≡ ok r → IsRequest r
unfolding context
context-IsRequest (obj fields) r h =
    checked-IsRequest fields r (exactly (has_exactly names fields) (checked fields) h)
context-IsRequest _ r h = cc
