-- ===== src/Permits/Digest/Base.antt =====
-- The message of a base command determines the command (`base_digest` of controller_permits.py).
use haetae.Prelude.{
  ℕ, ◌≡◌, refl, sym, ap, ◌∙◌, arith, Bool, true, false, List, [], ◌∷◌, ◌++◌, codes,
}
use haetae.Python.{Result, ok, value_error, raise_if, >>=-eq-ok, ok-injective, ◌>>◌}
use haetae.Prelude.Bytes.{big_endian}
use haetae.Permits.Digest.{Twist, Command, values, stamp_ns, pack_doubles, base_message}
use haetae.Permits.Digest.Stamps.{
  stamp_ns-injective, stamp_ns-lt, Doubles, front-injective, pack_doubles-injective,
}
use mathlib.Core.List.{append_cancel_left, append-nil}

after_check :
    {A : Type 0} (bad : Bool) (m : Result A) {a : A}
    → (do raise_if bad value_error; m) ≡ ok a
    → m ≡ ok a
after_check true m h = cc
after_check false m h = h

pub base_message-eq :
    (c : Command) (message : List ℕ)
    → base_message c ≡ ok message
    → (stamp : ℕ) × (stamp_ns c.stamp ≡ ok stamp)
      × (message ≡ codes "base" ++ 0 ∷ big_endian 8 stamp ++ pack_doubles (values c.twist))
unfolding base_message
base_message-eq c message h =
    let (stamp, e, h1) = >>=-eq-ok (stamp_ns c.stamp) _ (after_check _ _ h) in
    (stamp, e, sym (ok-injective h1))

twist-eq : (t u : Twist) → values t ≡ values u → t ≡ u
twist-eq t u e = ground arith

-- Two base commands with one message are one command: the stamp and all six components, bit for
-- bit.
pub base_message-injective :
    (c d : Command) (message : List ℕ)
    → Doubles (values c.twist)
    → Doubles (values d.twist)
    → base_message c ≡ ok message
    → base_message d ≡ ok message
    → c ≡ d
base_message-injective c d message wc wd hc hd =
    let (s, es, ms) = base_message-eq c message hc in
    let (t, et, mt) = base_message-eq d message hd in
    let (same, rest) = front-injective 8 s t (stamp_ns-lt c.stamp s es) (stamp_ns-lt d.stamp t et) (
      append_cancel_left (codes "base" ++ 0 ∷ []) (big_endian 8 s ++ pack_doubles (values c.twist))
        (big_endian 8 t ++ pack_doubles (values d.twist)) (sym ms ∙ mt)) in
    let (twists, _) =
      pack_doubles-injective (values c.twist) (values d.twist) {r = []} {s = []} wc wd refl
        (append-nil _ ∙ rest ∙ sym (append-nil _)) in
    let stamps = stamp_ns-injective c.stamp d.stamp t (es ∙ ap ok same) et in
    let twist = twist-eq c.twist d.twist twists in λ i. record { stamp = stamps i; twist = twist i }
