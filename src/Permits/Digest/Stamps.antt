-- ===== src/Permits/Digest/Stamps.antt =====
-- What the parts of a digest's message determine.
use haetae.Prelude.{ℕ, ◌^◌, ◌<◌, ◌≡◌, refl, sym, ap₂, ◌∙◌, arith, List, [], ◌∷◌, ◌++◌, length, All}
use haetae.Prelude.Bytes.{big_endian, big_endian-injective, length-big_endian, append-injective}
use mathlib.Core.List.{append_assoc}
use haetae.Prelude.Int.{ℤ, pos, negsuc}
use haetae.Python.{ok}
use haetae.Permits.Digest.{Stamp, nanoseconds, stamp_ns, pack_doubles}

nanoseconds-injective :
    (s t : ℤ) (m n k : ℕ) → nanoseconds s m ≡ ok k → nanoseconds t n ≡ ok k → (s ≡ t) × (m ≡ n)
nanoseconds-injective (pos s) (pos t) m n k p q = ground arith
nanoseconds-injective (pos s) (negsuc t) m n k p q = cc
nanoseconds-injective (negsuc s) t m n k p q = cc

pub stamp_ns-injective : (s t : Stamp) (k : ℕ) → stamp_ns s ≡ ok k → stamp_ns t ≡ ok k → s ≡ t
unfolding stamp_ns
stamp_ns-injective s t k p q =
    let (e, f) = nanoseconds-injective s.sec t.sec s.nanosec t.nanosec k p q in
    λ i. record { sec = e i; nanosec = f i }

nanoseconds-lt : (s : ℤ) (m k : ℕ) → nanoseconds s m ≡ ok k → k < 256 ^ 8
nanoseconds-lt (pos s) m k p = ground arith
nanoseconds-lt (negsuc s) m k p = cc

pub stamp_ns-lt : (s : Stamp) (k : ℕ) → stamp_ns s ≡ ok k → k < 256 ^ 8
unfolding stamp_ns
stamp_ns-lt s k p = nanoseconds-lt s.sec s.nanosec k p

-- The 64 bits of each float.
abbrev pub Doubles : List ℕ → Type 0
Doubles = All (λ bits. bits < 256 ^ 8)

-- A fixed-width number in front of a text is read off it.
pub front-injective :
    (width m n : ℕ) {xs ys : List ℕ}
    → m < 256 ^ width
    → n < 256 ^ width
    → big_endian width m ++ xs ≡ big_endian width n ++ ys
    → (m ≡ n) × (xs ≡ ys)
front-injective w m n hm hn e =
    let (p, q) =
      append-injective (big_endian w m) (big_endian w n)
        (length-big_endian w m ∙ sym (length-big_endian w n)) e in
    (big_endian-injective w m n hm hn p, q)

pub pack_doubles-injective :
    (xs ys : List ℕ) {r s : List ℕ}
    → Doubles xs
    → Doubles ys
    → length xs ≡ length ys
    → pack_doubles xs ++ r ≡ pack_doubles ys ++ s
    → (xs ≡ ys) × (r ≡ s)
unfolding pack_doubles
pack_doubles-injective [] [] hx hy n e = (refl, e)
pack_doubles-injective [] (y ∷ ys) hx hy n e = absurd (omega arith)
pack_doubles-injective (x ∷ xs) [] hx hy n e = absurd (omega arith)
pack_doubles-injective (x ∷ xs) (y ∷ ys) hx hy n e =
    let (p, rest) =
      front-injective 8 x y hx.0 hy.0
        (sym (append_assoc (big_endian 8 x) _ _) ∙ e ∙ append_assoc (big_endian 8 y) _ _) in
    let (q, t) = pack_doubles-injective xs ys hx.1 hy.1 (omega arith) rest in (ap₂ ◌∷◌ p q, t)
