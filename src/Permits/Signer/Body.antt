-- ===== src/Permits/Signer/Body.antt =====
-- The signed text of a permit determines every field of it.
use haetae.Prelude.{
  ℕ, ◌≡◌, refl, sym, ap, ◌∙◌, arith, true, List, [], ◌∷◌, ◌++◌, codes, all, All, ◌==◌,
  if◌then◌else◌,
}
use haetae.Prelude.Bytes.{is_hex}
use haetae.Prelude.Decimal.{decimal, decimal-injective, decimal-Digit, Digit, Free, split-injective}
use haetae.Permits.Signer.{
  Target, Kind, Permit, base, arm, command, goal, lease, reset, stop, target_text, kind_text, body,
}

abbrev initial : List ℕ → ℕ
initial [] = 0
initial (c ∷ cs) = c

target_of : ℕ → Target
target_of c = if c == b'b' then base else arm

kind_of : ℕ → Kind
kind_of c =
    if c == b'c'
    then command
    else if c == b'g'
    then goal
    else if c == b'l'
    then lease
    else if c == b'r'
    then reset
    else stop

target_of-initial : (t : Target) → target_of (initial (target_text t)) ≡ t
unfolding target_of
target_of-initial base = refl
target_of-initial arm = refl

kind_of-initial : (k : Kind) → kind_of (initial (kind_text k)) ≡ k
unfolding kind_of
kind_of-initial command = refl
kind_of-initial goal = refl
kind_of-initial lease = refl
kind_of-initial reset = refl
kind_of-initial stop = refl

-- No text of a target or a kind holds a dash or a colon.
abbrev Plain : List ℕ → Type 0
Plain xs = Free b'-' xs × Free b':' xs

Plain-target_text : (t : Target) → Plain (target_text t)
Plain-target_text base = omega arith
Plain-target_text arm = omega arith

Plain-kind_text : (k : Kind) → Plain (kind_text k)
Plain-kind_text command = omega arith
Plain-kind_text goal = omega arith
Plain-kind_text lease = omega arith
Plain-kind_text reset = omega arith
Plain-kind_text stop = omega arith

abbrev tag : Target → Kind → List ℕ
tag t k = target_text t ++ b'-' ∷ kind_text k

tag-injective : (t u : Target) (k l : Kind) → tag t k ≡ tag u l → (t ≡ u) × (k ≡ l)
tag-injective t u k l e =
    let (p, q) =
      split-injective b'-' (target_text t) (target_text u) (Plain-target_text t).0
        (Plain-target_text u).0 e in
    (
      sym (target_of-initial t) ∙ ap (λ x. target_of (initial x)) p ∙ target_of-initial u,
      sym (kind_of-initial k) ∙ ap (λ x. kind_of (initial x)) q ∙ kind_of-initial l,
    )

Free-append : (xs ys : List ℕ) → Free b':' xs → Free b':' ys → Free b':' (xs ++ b'-' ∷ ys)
Free-append [] ys f g = (omega arith, g)
Free-append (x ∷ xs) ys f g = (f.0, Free-append xs ys f.1 g)

Free-tag : (t : Target) (k : Kind) → Free b':' (tag t k)
Free-tag t k =
    Free-append (target_text t) (kind_text k) (Plain-target_text t).1 (Plain-kind_text k).1

Free-Digit : (xs : List ℕ) → All Digit xs → Free b':' xs
Free-Digit [] h = tt
Free-Digit (x ∷ xs) h = (omega arith, Free-Digit xs h.1)

Free-decimal : (n : ℕ) → Free b':' (decimal n)
Free-decimal n = Free-Digit (decimal n) (decimal-Digit n)

pub Free-hex : (xs : List ℕ) → all is_hex xs ≡ true → Free b':' xs
unfolding is_hex
Free-hex [] h = tt
Free-hex (x ∷ xs) h = (ground arith, Free-hex xs (ground arith))

permit-eq :
    (p q : Permit)
    → p.target ≡ q.target
    → p.kind ≡ q.kind
    → p.challenge ≡ q.challenge
    → p.sequence ≡ q.sequence
    → p.sim_ns ≡ q.sim_ns
    → p.wall_ns ≡ q.wall_ns
    → p.sim_expires_ns ≡ q.sim_expires_ns
    → p.wall_expires_ns ≡ q.wall_expires_ns
    → p.digest ≡ q.digest
    → p ≡ q
permit-eq p q a b c d e f g h j i = record {
  target = a i;
  kind = b i;
  challenge = c i;
  sequence = d i;
  sim_ns = e i;
  wall_ns = f i;
  sim_expires_ns = g i;
  wall_expires_ns = h i;
  digest = j i;
}

-- A number in front of a colon is read off the text.
number :
    (m n : ℕ) {r r' : List ℕ} → decimal m ++ b':' ∷ r ≡ decimal n ++ b':' ∷ r' → (m ≡ n) × (r ≡ r')
number m n e =
    let (p, q) = split-injective b':' (decimal m) (decimal n) (Free-decimal m) (Free-decimal n) e in
    (decimal-injective m n p, q)

-- Two permits whose challenges hold no colon have one body only if they agree in every field.
pub body-injective :
    (p q : Permit) → Free b':' p.challenge → Free b':' q.challenge → body p ≡ body q → p ≡ q
unfolding body
body-injective p q fp fq e =
    let (version, e0) =
      split-injective b':' (codes "v1") (codes "v1") (omega arith) (omega arith) e in
    let (tags, e1) =
      split-injective b':' (tag p.target p.kind) (tag q.target q.kind) (Free-tag p.target p.kind)
        (Free-tag q.target q.kind) e0 in
    let (targets, kinds) = tag-injective p.target q.target p.kind q.kind tags in
    let (challenges, e2) = split-injective b':' p.challenge q.challenge fp fq e1 in
    let (sequences, e3) = number p.sequence q.sequence e2 in
    let (sims, e4) = number p.sim_ns q.sim_ns e3 in
    let (walls, e5) = number p.wall_ns q.wall_ns e4 in
    let (sim_ends, e6) = number p.sim_expires_ns q.sim_expires_ns e5 in
    let (wall_ends, digests) = number p.wall_expires_ns q.wall_expires_ns e6 in
    permit-eq p q targets kinds challenges sequences sims walls sim_ends wall_ends digests
