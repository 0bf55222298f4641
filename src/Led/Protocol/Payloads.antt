-- ===== src/Led/Protocol/Payloads.antt =====
-- The bytes that are signed determine the request (`payload` and `bind_payload` of
-- permit_protocol.py).
use haetae.Prelude.{
  ℕ, suc, ◌+◌, ◌-◌, ◌^◌, ◌≤◌, ◌<◌, ◌≡◌, ◌≢◌, refl, sym, ap, ap₂, ◌∙◌, arith, Bool, true, false, not,
  ◌||◌, List, [], ◌∷◌, ◌++◌, length, all, All, cons-injective, if◌then◌else◌,
}
use haetae.Prelude.Bytes.{
  is_hex, little_endian, length-little_endian, little_endian-injective, append-injective,
}
use haetae.Python.{ok, err, value_error, >>=-eq-ok, ok-injective, at}
use haetae.Python.Values.{Json}
use haetae.Led.Protocol.{
  Op, Request, bind, arm, run, op_code, nibble, from_hex, domain, exchange_domain, pack_numbers,
  numbers, is_duration, fields_bytes, permit_bytes, context, is_bind_text, payload, bind_payload,
  is_hex_of,
}
use haetae.Led.Protocol.Requests.{HexOf, IsRequest, passed, context-IsRequest}
use mathlib.Core.List.{append_cancel_left, append_assoc}

nibble-lt : (c : ℕ) → is_hex c ≡ true → nibble c < 16
unfolding is_hex nibble
nibble-lt c h = ground arith

nibble-injective : (c d : ℕ) → is_hex c ≡ true → is_hex d ≡ true → nibble c ≡ nibble d → c ≡ d
unfolding is_hex nibble
nibble-injective c d h k e = ground arith

pub length-from_hex :
    (xs ys : List ℕ) → length xs ≡ length ys → length (from_hex xs) ≡ length (from_hex ys)
unfolding from_hex
length-from_hex [] [] h = refl
length-from_hex [] (y ∷ ys) h = absurd (omega arith)
length-from_hex (x ∷ xs) [] h = absurd (omega arith)
length-from_hex (x ∷ []) (y ∷ []) h = refl
length-from_hex (x ∷ []) (y ∷ z ∷ ys) h = absurd (omega arith)
length-from_hex (x ∷ w ∷ xs) (y ∷ []) h = absurd (omega arith)
length-from_hex (x ∷ w ∷ xs) (y ∷ z ∷ ys) h = ap suc (length-from_hex xs ys (omega arith))

-- Pairs of digits, an even number of them.
abbrev Pairs : List ℕ → Type 0
Pairs [] = Unit
Pairs (x ∷ []) = ⊥
Pairs (x ∷ y ∷ xs) = Pairs xs

digits :
    (x w : ℕ) (xs : List ℕ)
    → all is_hex (x ∷ w ∷ xs) ≡ true
    → (is_hex x ≡ true) × (is_hex w ≡ true) × (all is_hex xs ≡ true)
digits x w xs h = ground arith

from_hex-injective :
    (xs ys : List ℕ)
    → Pairs xs
    → Pairs ys
    → all is_hex xs ≡ true
    → all is_hex ys ≡ true
    → from_hex xs ≡ from_hex ys
    → xs ≡ ys
unfolding from_hex
from_hex-injective [] [] p q h k e = refl
from_hex-injective [] (y ∷ []) p q h k e = elim q [ ]
from_hex-injective [] (y ∷ z ∷ ys) p q h k e = cc
from_hex-injective (x ∷ []) ys p q h k e = elim p [ ]
from_hex-injective (x ∷ w ∷ xs) [] p q h k e = cc
from_hex-injective (x ∷ w ∷ xs) (y ∷ []) p q h k e = elim q [ ]
from_hex-injective (x ∷ w ∷ xs) (y ∷ z ∷ ys) p q h k e =
    let (pair, rest) = cons-injective e in
    let (hx, hw, hxs) = digits x w xs h in
    let (hy, hz, hys) = digits y z ys k in
    let high : nibble x ≡ nibble y =
      omega (arith, nibble-lt x hx, nibble-lt w hw, nibble-lt y hy, nibble-lt z hz) in
    let low : nibble w ≡ nibble z = omega arith in
    ap₂ ◌∷◌ (nibble-injective x y hx hy high)
      (ap₂ ◌∷◌ (nibble-injective w z hw hz low) (from_hex-injective xs ys p q hxs hys rest))

HexOf-Pairs : (text : List ℕ) (half : ℕ) → length text ≡ half + half → Pairs text
HexOf-Pairs [] half h = tt
HexOf-Pairs (x ∷ []) half h = absurd (omega arith)
HexOf-Pairs (x ∷ y ∷ xs) half h = HexOf-Pairs xs (half - 1) (omega arith)

pub hex-injective :
    (half : ℕ) (xs ys : List ℕ)
    → HexOf (half + half) xs
    → HexOf (half + half) ys
    → from_hex xs ≡ from_hex ys
    → xs ≡ ys
hex-injective half xs ys (n, h) (m, k) =
    from_hex-injective xs ys (HexOf-Pairs xs half n) (HexOf-Pairs ys half m) h k

pack_numbers-injective :
    (xs ys : List ℕ) {r s : List ℕ}
    → All (λ n. n < 256 ^ 4) xs
    → All (λ n. n < 256 ^ 4) ys
    → length xs ≡ length ys
    → pack_numbers xs ++ r ≡ pack_numbers ys ++ s
    → (xs ≡ ys) × (r ≡ s)
unfolding pack_numbers
pack_numbers-injective [] [] hx hy n e = (refl, e)
pack_numbers-injective [] (y ∷ ys) hx hy n e = absurd (omega arith)
pack_numbers-injective (x ∷ xs) [] hx hy n e = absurd (omega arith)
pack_numbers-injective (x ∷ xs) (y ∷ ys) hx hy n e =
    let (p, rest) =
      append-injective (little_endian 4 x) (little_endian 4 y)
        (length-little_endian 4 x ∙ sym (length-little_endian 4 y))
        (sym (append_assoc (little_endian 4 x) _ _) ∙ e ∙ append_assoc (little_endian 4 y) _ _) in
    let (q, t) = pack_numbers-injective xs ys hx.1 hy.1 (omega arith) rest in
    (ap₂ ◌∷◌ (little_endian-injective 4 x y hx.0 hy.0 p) q, t)

op_code-injective : (o q : Op) → op_code o ≡ op_code q → o ≡ q
op_code-injective o q h = ground arith

duration_le : (op : Op) (duration : ℕ) → is_duration op duration ≡ true → duration ≤ 200
duration_le bind duration h = ground arith
duration_le arm duration h = ground arith
duration_le run duration h = ground arith

op_code_lt : (op : Op) → op_code op < 256 ^ 4
op_code_lt bind = omega arith
op_code_lt arm = omega arith
op_code_lt run = omega arith

numbers-fit :
    (r : Request) (duration : ℕ)
    → IsRequest r
    → duration ≤ 200
    → All (λ n. n < 256 ^ 4) (numbers r duration)
numbers-fit r duration v small = (
  omega (arith, v.its_epoch.1),
  (
    omega (arith, v.its_generation.1),
    (
      omega (arith, v.its_sequence),
      (
        omega (arith, v.its_challenge.1),
        (omega (arith, v.its_issued), (omega arith, (op_code_lt r.op, tt))),
      ),
    ),
  ),
)

request-eq :
    (r q : Request) (d e : ℕ)
    → r.install ≡ q.install
    → r.nonce ≡ q.nonce
    → numbers r d ≡ numbers q e
    → (r ≡ q) × (d ≡ e)
request-eq r q d e install nonce ns =
    let (epochs, n1) = cons-injective ns in
    let (generations, n2) = cons-injective n1 in
    let (sequences, n3) = cons-injective n2 in
    let (challenges, n4) = cons-injective n3 in
    let (issues, n5) = cons-injective n4 in
    let (durations, n6) = cons-injective n5 in
    let ops = op_code-injective r.op q.op (cons-injective n6).0 in
    let sequence : r.sequence ≡ q.sequence = omega arith in
    (
      λ i. record {
        install = install i;
        epoch = epochs i;
        generation = generations i;
        sequence = sequence i;
        challenge = challenges i;
        issued = issues i;
        nonce = nonce i;
        op = ops i;
      },
      durations,
    )

fields_bytes-injective :
    (r q : Request) (d e : ℕ)
    → IsRequest r
    → IsRequest q
    → d ≤ 200
    → e ≤ 200
    → fields_bytes r d ≡ fields_bytes q e
    → (r ≡ q) × (d ≡ e)
unfolding fields_bytes
fields_bytes-injective r q d e v w hd he same =
    let (installs, rest) =
      append-injective (from_hex r.install) (from_hex q.install)
        (length-from_hex r.install q.install (v.its_install.0 ∙ sym w.its_install.0)) same in
    let (ns, nonces) =
      pack_numbers-injective (numbers r d) (numbers q e) (numbers-fit r d v hd)
        (numbers-fit q e w he) refl rest in
    request-eq r q d e (hex-injective 16 r.install q.install v.its_install w.its_install installs)
      (hex-injective 16 r.nonce q.nonce v.its_nonce w.its_nonce nonces) ns

domains_differ : (xs ys : List ℕ) → exchange_domain ++ xs ≢ domain ++ ys
domains_differ xs ys e =
    let letters =
      (cons-injective
        (cons-injective
          (cons-injective
            (cons-injective
              (cons-injective (cons-injective (cons-injective e).1).1).1).1).1).1).1 in
    absurd (omega (arith, (cons-injective letters).0))

permit_bytes-eq :
    (r : Request) (duration : ℕ) (bytes : List ℕ)
    → permit_bytes r duration ≡ ok bytes
    → (duration ≤ 200) × (bytes ≡ domain ++ fields_bytes r duration)
unfolding permit_bytes
permit_bytes-eq r duration bytes h = go (is_duration r.op duration) refl h
  where
    go :
        (b : Bool)
        → is_duration r.op duration ≡ b
        → (if b then ok (domain ++ fields_bytes r duration) else err value_error) ≡ ok bytes
        → (duration ≤ 200) × (bytes ≡ domain ++ fields_bytes r duration)
    go true e p = (duration_le r.op duration e, sym (ok-injective p))
    go false e p = cc

payload-eq :
    (value : Json) (duration : ℕ) (bytes : List ℕ)
    → payload value duration ≡ ok bytes
    → (r : Request) × (context value ≡ ok r)
      × (duration ≤ 200)
      × (bytes ≡ domain ++ fields_bytes r duration)
unfolding payload
payload-eq value duration bytes h =
    let (r, hr, h0) = >>=-eq-ok (context value) _ h in
    let (hd, m) = permit_bytes-eq r duration bytes h0 in (r, hr, hd, m)

-- A signed payload stands for one request and one lease: two values whose payloads are the same
-- bytes are let through as the same request, with the same duration. So the signature cannot be
-- used for another board, epoch, generation, sequence, challenge, time, nonce, action or lease.
pub payload-injective :
    (value other : Json) (duration duration' : ℕ) (bytes : List ℕ)
    → payload value duration ≡ ok bytes
    → payload other duration' ≡ ok bytes
    → (context value ≡ context other) × (duration ≡ duration')
payload-injective value other d e bytes h k =
    let (r, hr, hd, mr) = payload-eq value d bytes h in
    let (q, hq, he, mq) = payload-eq other e bytes k in
    let (same, durations) =
      fields_bytes-injective r q d e (context-IsRequest value r hr) (context-IsRequest other q hq)
        hd he (append_cancel_left domain _ _ (sym mr ∙ mq)) in
    (hr ∙ ap ok same ∙ sym hq, durations)

-- What is signed to bind a session is never what is signed to arm or run.
pub bind_payload-ne-payload :
    (value other : Json) (ephemeral controller_public bytes bytes' : List ℕ) (duration : ℕ)
    → bind_payload value ephemeral controller_public ≡ ok bytes
    → payload other duration ≡ ok bytes'
    → bytes ≢ bytes'
unfolding bind_payload
bind_payload-ne-payload value other ephemeral controller_public bytes bytes' duration h k same =
    let (op, _, h') = >>=-eq-ok (at "op" value) _ h in
    let (_, h0) =
      passed
        (not (is_bind_text op)
          || not (is_hex_of 64 ephemeral)
          || not (is_hex_of 64 controller_public))
        _ h' in
    let (raw, _, h1) = >>=-eq-ok (payload value 0) _ h0 in
    let (_, _, _, mq) = payload-eq other duration bytes' k in
    absurd (domains_differ _ _ (ok-injective h1 ∙ same ∙ mq))
