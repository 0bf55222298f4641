-- ===== src/Prelude/Bytes.antt =====
-- Fixed-width big- and little-endian encodings, and hexadecimal text.
use Prim.Native.Nat.{ℕ, zero, suc, ◌/◌, ◌%◌, ◌^◌, ◌<◌}
use mathlib.Core.Bool.{Bool, ◌&&◌, ◌||◌}
use mathlib.Core.List.{List, [], ◌∷◌, ◌++◌, reverse, reverse-cons, reverse-reverse}
use mathlib.Core.Path.{◌≡◌, refl, sym, ap, ap₂, ◌∙◌}
use native.Mathlib.Nat.{pow-suc}
use native.Mathlib.Omega.{arith}
use haetae.Prelude.Lists.{length, length-append, cons-injective}
use haetae.Prelude.Tests.{leb}

-- The low `width` bytes of a number, lowest first.
unfoldable pub little_endian : ℕ → ℕ → List ℕ
little_endian zero n = []
little_endian (suc width) n = (n % 256) ∷ little_endian width (n / 256)

unfoldable pub big_endian : ℕ → ℕ → List ℕ
unfolding little_endian
big_endian width n = reverse (little_endian width n)

pub length-little_endian : (width n : ℕ) → length (little_endian width n) ≡ width
unfolding little_endian
length-little_endian zero n = refl
length-little_endian (suc w) n = ap suc (length-little_endian w (n / 256))

pub little_endian-injective :
    (width m n : ℕ)
    → m < 256 ^ width
    → n < 256 ^ width
    → little_endian width m ≡ little_endian width n
    → m ≡ n
unfolding little_endian
little_endian-injective zero m n hm hn e = omega arith
little_endian-injective (suc w) m n hm hn e = omega (
  arith,
  ap head e,
  little_endian-injective w (m / 256) (n / 256) (omega (arith, pow-suc 256 w))
      (omega (arith, pow-suc 256 w)) (ap tail e),
)
  where
    head : List ℕ → ℕ
    head [] = 0
    head (x ∷ xs) = x

    tail : List ℕ → List ℕ
    tail [] = []
    tail (x ∷ xs) = xs

pub big_endian-injective :
    (width m n : ℕ)
    → m < 256 ^ width
    → n < 256 ^ width
    → big_endian width m ≡ big_endian width n
    → m ≡ n
unfolding big_endian
big_endian-injective w m n hm hn e =
    little_endian-injective w m n hm hn (sym (reverse-reverse _) ∙ ap reverse e ∙ reverse-reverse _)

length-reverse : (bytes : List ℕ) → length (reverse bytes) ≡ length bytes
length-reverse [] = refl
length-reverse (byte ∷ bytes) =
    ap length (reverse-cons byte bytes)
    ∙ length-append (reverse bytes) (byte ∷ [])
    ∙ omega (arith, length-reverse bytes)

pub length-big_endian : (width n : ℕ) → length (big_endian width n) ≡ width
unfolding big_endian
length-big_endian w n = length-reverse _ ∙ length-little_endian w n

-- Two texts with prefixes of one length are equal only part by part.
pub append-injective {ℓ} :
    {A : Type ℓ} (xs xs' : List A) {ys ys' : List A}
    → length xs ≡ length xs'
    → xs ++ ys ≡ xs' ++ ys'
    → (xs ≡ xs') × (ys ≡ ys')
append-injective [] [] n e = (refl, e)
append-injective [] (x ∷ xs) n e = absurd (omega arith)
append-injective (x ∷ xs) [] n e = absurd (omega arith)
append-injective (x ∷ xs) (y ∷ ys) n e =
    let both = append-injective xs ys (omega arith) (cons-injective e).1 in
    (ap₂ ◌∷◌ (cons-injective e).0 both.0, both.1)

-- `c in "0123456789abcdef"`
unfoldable pub is_hex : ℕ → Bool
is_hex c = (leb b'0' c && leb c b'9') || (leb b'a' c && leb c b'f')
