-- ===== src/Signing/Message.antt =====
-- The signed message of an input determines the input (`input_message` of signing.py).
use haetae.Prelude.{
  ℕ, ◌^◌, ◌<◌, ◌≡◌, refl, sym, ◌∙◌, arith, Bool, true, false, List, [], ◌∷◌, ◌++◌, codes, length,
  ltb, ltb→lt, cons-injective, if◌then◌else◌,
}
use haetae.Prelude.Bytes.{big_endian, append-injective}
use haetae.Permits.Digest.Stamps.{front-injective}
use haetae.Python.{ok, err, struct_error, >>=-eq-ok, ok-injective}
use haetae.Signing.{Role, role_tag, pack, input_message}
use mathlib.Core.List.{append_cancel_left, append_assoc}

pack-eq :
    (width n : ℕ) (bytes : List ℕ)
    → pack width n ≡ ok bytes
    → (n < 256 ^ width) × (bytes ≡ big_endian width n)
unfolding pack
pack-eq width n bytes h = go (ltb n (256 ^ width)) refl h
  where
    go :
        (b : Bool)
        → ltb n (256 ^ width) ≡ b
        → (if b then ok (big_endian width n) else err struct_error) ≡ ok bytes
        → (n < 256 ^ width) × (bytes ≡ big_endian width n)
    go true e p = (ltb→lt n (256 ^ width) e, sym (ok-injective p))
    go false e p = cc

pub role_tag-injective : (r q : Role) → role_tag r ≡ role_tag q → r ≡ q
role_tag-injective r q h = ground arith

abbrev message : List ℕ → ℕ → ℕ → Role → List ℕ → List ℕ
message audience epoch counter role payload =
    big_endian 4 (length audience)
    ++ (audience
        ++ (big_endian 8 epoch
            ++ (big_endian 8 counter
                ++ (role_tag role ∷ (big_endian 4 (length payload) ++ payload)))))

pub record Fits (audience : List ℕ) (epoch counter : ℕ) (payload : List ℕ) : Type 0 where
  pub audience_fits : length audience < 256 ^ 4
  pub epoch_fits : epoch < 256 ^ 8
  pub counter_fits : counter < 256 ^ 8
  pub payload_fits : length payload < 256 ^ 4

assembled :
    (a audience e c : List ℕ) (tag : ℕ) (p payload : List ℕ)
    → codes "haetae-input-v1" ++ 0 ∷ a ++ audience ++ e ++ c ++ tag ∷ p ++ payload
      ≡ (codes "haetae-input-v1" ++ 0 ∷ [])
        ++ (a ++ (audience ++ (e ++ (c ++ (tag ∷ (p ++ payload))))))
assembled a audience e c tag p payload = simp append_assoc

input_message-eq :
    (audience : List ℕ) (epoch counter : ℕ) (role : Role) (payload bytes : List ℕ)
    → input_message audience epoch counter role payload ≡ ok bytes
    → Fits audience epoch counter payload
      × (bytes ≡ (codes "haetae-input-v1" ++ 0 ∷ []) ++ message audience epoch counter role payload)
unfolding input_message
input_message-eq audience epoch counter role payload bytes h =
    let (a, ea, h1) = >>=-eq-ok (pack 4 (length audience)) _ h in
    let (e, ee, h2) = >>=-eq-ok (pack 8 epoch) _ h1 in
    let (c, ec, h3) = >>=-eq-ok (pack 8 counter) _ h2 in
    let (p, ep, h4) = >>=-eq-ok (pack 4 (length payload)) _ h3 in
    let (fa, qa) = pack-eq 4 (length audience) a ea in
    let (fe, qe) = pack-eq 8 epoch e ee in
    let (fc, qc) = pack-eq 8 counter c ec in
    let (fp, qp) = pack-eq 4 (length payload) p ep in
    (
      record { audience_fits = fa; epoch_fits = fe; counter_fits = fc; payload_fits = fp },
      sym (ok-injective h4) ∙ assembled a audience e c (role_tag role) p payload ∙ (λ i.
          (codes "haetae-input-v1" ++ 0 ∷ [])
          ++ (qa i ++ (audience ++ (qe i ++ (qc i ++ (role_tag role ∷ (qp i ++ payload))))))),
    )

-- An envelope's message is signed for one audience, epoch, counter, role and payload only.
pub input_message-injective :
    (audience audience' : List ℕ) (epoch epoch' counter counter' : ℕ) (role role' : Role)
    (payload payload' bytes : List ℕ)
    → input_message audience epoch counter role payload ≡ ok bytes
    → input_message audience' epoch' counter' role' payload' ≡ ok bytes
    → (audience ≡ audience')
      × (epoch ≡ epoch')
      × (counter ≡ counter')
      × (role ≡ role')
      × (payload ≡ payload')
input_message-injective a a' e e' c c' r r' p p' bytes h h' =
    let (f, m) = input_message-eq a e c r p bytes h in
    let (f', m') = input_message-eq a' e' c' r' p' bytes h' in
    let x0 = append_cancel_left (codes "haetae-input-v1" ++ 0 ∷ []) _ _ (sym m ∙ m') in
    let (sizes, x1) =
      front-injective 4 (length a) (length a') f.audience_fits f'.audience_fits x0 in
    let (audiences, x2) = append-injective a a' sizes x1 in
    let (epochs, x3) = front-injective 8 e e' f.epoch_fits f'.epoch_fits x2 in
    let (counters, x4) = front-injective 8 c c' f.counter_fits f'.counter_fits x3 in
    let (tags, x5) = cons-injective x4 in
    let (_, payloads) =
      front-injective 4 (length p) (length p') f.payload_fits f'.payload_fits x5 in
    (audiences, epochs, counters, role_tag-injective r r' tags, payloads)
