-- ===== src/Permits/Digest/Arm.antt =====
-- The message of an arm goal determines the goal (`arm_digest` of controller_permits.py).
use haetae.Prelude.{
  ℕ, ◌≤◌, ◌≡◌, refl, sym, ap, ap₂, ◌∙◌, arith, String, Bool, true, false, not, ◌||◌, ◌&&◌, ◌≢◌,
  List, [], ◌∷◌, ◌++◌, length, All, codes, leb, cons-injective,
}
use haetae.Prelude.Bytes.{big_endian}
use haetae.Prelude.Int.{ℤ, pos, negsuc}
use haetae.Python.{Result, ok, value_error, raise_if, >>=-eq-ok, ok-injective, ◌>>◌}
use haetae.Permits.Digest.{
  Point, Trajectory, joints, same_names, pack_names, is_empty, is_supported, stamp_ns, pack_doubles,
  pack_points, base_message, arm_message, Command,
}
use haetae.Permits.Digest.Base.{base_message-eq}
use haetae.Permits.Digest.Stamps.{
  stamp_ns-injective, stamp_ns-lt, Doubles, front-injective, pack_doubles-injective,
}
use mathlib.Core.List.{append_cancel_left, append_assoc}
use text.Mathlib.TextEquality.{eq_iff}

pub same_names-eq : (xs ys : List String) → same_names xs ys ≡ true → xs ≡ ys
unfolding same_names
same_names-eq [] [] h = refl
same_names-eq [] (y ∷ ys) h = cc
same_names-eq (x ∷ xs) [] h = cc
same_names-eq (x ∷ xs) (y ∷ ys) h = ground (arith, eq_iff x y, same_names-eq xs ys)

is_empty-eq : (xs : List ℕ) → is_empty xs ≡ true → xs ≡ []
is_empty-eq [] h = refl
is_empty-eq (x ∷ xs) h = cc

-- What a supported point is: four positions and no other list.
pub supported :
    (last : ℤ) (duration : ℕ) (p : Point)
    → is_supported last duration p ≡ true
    → (length p.positions ≡ 4) × (p.velocities ≡ []) × (p.accelerations ≡ []) × (p.effort ≡ [])
unfolding is_supported
supported last duration p h =
    ground (arith, is_empty-eq p.velocities, is_empty-eq p.accelerations, is_empty-eq p.effort)

-- A loop round that went through.
round :
    {A : Type 0} (test : Bool) (m : Result A) {a : A}
    → (do raise_if (not test) value_error; m) ≡ ok a
    → (test ≡ true) × (m ≡ ok a)
round true m h = (refl, h)
round false m h = cc

abbrev Typed : Point → Type 0
Typed p = Doubles p.positions

pub pack_points-eq :
    (last : ℤ) (p : Point) (ps : List Point) (raw : List ℕ)
    → pack_points last (p ∷ ps) ≡ ok raw
    → (duration : ℕ) × (rest : List ℕ) × (stamp_ns p.time_from_start ≡ ok duration)
      × (is_supported last duration p ≡ true)
      × (pack_points (pos duration) ps ≡ ok rest)
      × (raw ≡ big_endian 8 duration ++ (pack_doubles p.positions ++ rest))
unfolding pack_points
pack_points-eq last p ps raw h =
    let (d, ed, h1) = >>=-eq-ok (stamp_ns p.time_from_start) _ h in
    let (good, h2) = round (is_supported last d p) _ h1 in
    let (rest, er, h3) = >>=-eq-ok (pack_points (pos d) ps) _ h2 in
    (d, rest, ed, good, er, sym (ok-injective h3) ∙ append_assoc (big_endian 8 d) _ _)

point-eq :
    (p q : Point)
    → p.time_from_start ≡ q.time_from_start
    → p.positions ≡ q.positions
    → p.velocities ≡ q.velocities
    → p.accelerations ≡ q.accelerations
    → p.effort ≡ q.effort
    → p ≡ q
point-eq p q a b c d e i = record {
  positions = b i;
  velocities = c i;
  accelerations = d i;
  effort = e i;
  time_from_start = a i;
}

pack_points-injective :
    (last last' : ℤ) (ps qs : List Point) (raw : List ℕ)
    → All Typed ps
    → All Typed qs
    → length ps ≡ length qs
    → pack_points last ps ≡ ok raw
    → pack_points last' qs ≡ ok raw
    → ps ≡ qs
pack_points-injective l l' [] [] raw hp hq n e f = refl
pack_points-injective l l' [] (q ∷ qs) raw hp hq n e f = absurd (omega arith)
pack_points-injective l l' (p ∷ ps) [] raw hp hq n e f = absurd (omega arith)
pack_points-injective l l' (p ∷ ps) (q ∷ qs) raw hp hq n e f =
    let (dp, rp, ep, gp, tp, mp) = pack_points-eq l p ps raw e in
    let (dq, rq, eq, gq, tq, mq) = pack_points-eq l' q qs raw f in
    let (np, vp, ap', fp) = supported l dp p gp in
    let (nq, vq, aq, fq) = supported l' dq q gq in
    let (same, rest) =
      front-injective 8 dp dq (stamp_ns-lt p.time_from_start dp ep)
        (stamp_ns-lt q.time_from_start dq eq) (sym mp ∙ mq) in
    let (positions, tails) =
      pack_doubles-injective p.positions q.positions hp.0 hq.0 (np ∙ sym nq) rest in
    let time = stamp_ns-injective p.time_from_start q.time_from_start dq (ep ∙ ap ok same) eq in
    ap₂ ◌∷◌ (point-eq p q time positions (vp ∙ sym vq) (ap' ∙ sym aq) (fp ∙ sym fq)) (
      pack_points-injective (pos dp) (pos dq) ps qs rq hp.1 hq.1 (omega arith) (tp ∙ ap ok tails)
        tq)

abbrev header : ℕ → List ℕ → List ℕ → List ℕ
header stamp count raw =
    big_endian 8 stamp ++ ((big_endian 4 4 ++ pack_names joints) ++ (count ++ raw))

assembled :
    (stamp : ℕ) (names : List String) (count raw : List ℕ)
    → names ≡ joints
    → codes "arm"
        ++ 0 ∷ big_endian 8 stamp
        ++ big_endian 4 (length names)
        ++ pack_names names
        ++ count
        ++ raw
      ≡ (codes "arm" ++ 0 ∷ []) ++ header stamp count raw
assembled stamp names count raw e = rw e (simp append_assoc)

pub arm_checked :
    {A : Type 0} (t : Trajectory) (m : Result A) {a : A}
    → (do
      raise_if
          (not (same_names t.joint_names joints)
            || not (leb 1 (length t.points) && leb (length t.points) 16))
          value_error
      m)
      ≡ ok a
    → ((same_names t.joint_names joints && leb (length t.points) 16) ≡ true) × (m ≡ ok a)
arm_checked t m h = ground arith

pub arm_message-eq :
    (t : Trajectory) (message : List ℕ)
    → arm_message t ≡ ok message
    → (stamp : ℕ) × (raw : List ℕ) × (t.joint_names ≡ joints)
      × (length t.points ≤ 16)
      × (stamp_ns t.stamp ≡ ok stamp)
      × (pack_points (negsuc 0) t.points ≡ ok raw)
      × (message ≡ (codes "arm" ++ 0 ∷ []) ++ header stamp (big_endian 4 (length t.points)) raw)
unfolding arm_message
arm_message-eq t message h =
    let (bad, h0) = arm_checked t _ h in
    let (stamp, es, h1) = >>=-eq-ok (stamp_ns t.stamp) _ h0 in
    let (raw, er, h2) = >>=-eq-ok (pack_points (negsuc 0) t.points) _ h1 in
    let names = same_names-eq t.joint_names joints (ground arith) in
    (
      stamp,
      raw,
      names,
      ground arith,
      es,
      er,
      sym (ok-injective h2) ∙ assembled stamp t.joint_names _ raw names,
    )

trajectory-eq :
    (t u : Trajectory)
    → t.stamp ≡ u.stamp
    → t.joint_names ≡ u.joint_names
    → t.points ≡ u.points
    → t ≡ u
trajectory-eq t u a b c i = record { stamp = a i; joint_names = b i; points = c i }

-- Two arm goals with one message are one goal: the start stamp, the joints and every point, bit for
-- bit.
pub arm_message-injective :
    (t u : Trajectory) (message : List ℕ)
    → All Typed t.points
    → All Typed u.points
    → arm_message t ≡ ok message
    → arm_message u ≡ ok message
    → t ≡ u
arm_message-injective t u message wt wu ht hu =
    let (a, raw, names, few, ea, ep, ms) = arm_message-eq t message ht in
    let (b, raw', names', few', eb, ep', ms') = arm_message-eq u message hu in
    let (same, rest) =
      front-injective 8 a b (stamp_ns-lt t.stamp a ea) (stamp_ns-lt u.stamp b eb)
        (append_cancel_left (codes "arm" ++ 0 ∷ []) _ _ (sym ms ∙ ms')) in
    let (count, raws) =
      front-injective 4 (length t.points) (length u.points) (omega arith) (omega arith)
        (append_cancel_left (big_endian 4 4 ++ pack_names joints) _ _ rest) in
    trajectory-eq t u (stamp_ns-injective t.stamp u.stamp b (ea ∙ ap ok same) eb)
      (names ∙ sym names')
      (pack_points-injective (negsuc 0) (negsuc 0) t.points u.points raw' wt wu count
        (ep ∙ ap ok raws) ep')

-- No base command and arm goal share a message.
pub base_message-ne-arm_message :
    (c : Command) (t : Trajectory) (m n : List ℕ)
    → base_message c ≡ ok m
    → arm_message t ≡ ok n
    → m ≢ n
base_message-ne-arm_message c t m n hc ht e =
    let (s, _, ms) = base_message-eq c m hc in
    let (a, raw, _, _, _, _, mt) = arm_message-eq t n ht in
    absurd (omega (arith, (cons-injective (sym ms ∙ e ∙ mt)).0))
