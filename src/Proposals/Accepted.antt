-- ===== src/Proposals/Accepted.antt =====
-- What the decoding of a proposal guarantees, and that it accepts what the permits are signed for.
use haetae.Prelude.{
  ℕ, ◌≤◌, ◌≡◌, refl, sym, ap, ◌∙◌, subst, arith, String, Bool, true, false, not, ◌&&◌, ◌||◌, List,
  [], ◌∷◌, length, all, All, ltb, ◌==◌, if◌then◌else◌,
}
use haetae.Python.{
  Result, ok, err, invalid_proposal, >>=-eq-ok, ok-injective, ◌>>=◌, ◌>>◌, raise_if,
}
use haetae.Python.Values.{Json}
use haetae.Python.Double.{is_finite}
use haetae.Permits.Digest.{Point, Trajectory, same_names, is_empty}
use haetae.Proposals.{
  Waypoint, Action, stop, joint_trajectory, fixed_lease, millis, waypoint, waypoints, duration_of,
  planned, arm_action,
}

-- A test that went through.
passed :
    {A : Type 0} (bad : Bool) (rest : Result A) {a : A}
    → (do raise_if bad invalid_proposal; rest) ≡ ok a
    → (bad ≡ false) × (rest ≡ ok a)
passed true rest h = cc
passed false rest h = (refl, h)

-- A waypoint of a plan of `n` joints: `n` finite positions.
pub record IsWaypoint (n : ℕ) (p : Waypoint) : Type 0 where
  pub its_length : length p.positions ≡ n
  pub its_finite : all is_finite p.positions ≡ true

-- The waypoints are those of the message, one for one: the positions of the point, its time in
-- whole milliseconds, rounded down.
abbrev pub Matches : List Point → List Waypoint → Type 0
Matches [] [] = Unit
Matches [] (w ∷ ws) = ⊥
Matches (p ∷ ps) [] = ⊥
Matches (p ∷ ps) (w ∷ ws) =
    ((w.positions ≡ p.positions) × (millis p.time_from_start ≡ ok w.time_from_start_ms))
    × Matches ps ws

-- Of a message with points, the list of the waypoints has a last one.
pub waypoints-duration :
    (joints : List String) (p : Point) (ps : List Point) (ws : List Waypoint)
    → waypoints joints (p ∷ ps) ≡ ok ws
    → (duration : ℕ) × (duration_of ws ≡ ok duration)
unfolding waypoints
waypoints-duration joints p ps ws h =
    let (v, _, h1) = >>=-eq-ok (waypoint joints p) _ h in
    let (vs, _, h2) = >>=-eq-ok (waypoints joints ps) _ h1 in
    subst (λ x. (duration : ℕ) × (duration_of x ≡ ok duration)) (ok-injective h2) (_, refl)

-- What is accepted for the arm: a stop for an empty plan, otherwise the plan of the message with a
-- lease that covers its last waypoint.
pub data Accepts (msg : Trajectory) (joints : List String) : Action → Type 0 where
  nothing : msg.points ≡ [] → Accepts msg joints stop
  plan :
      (points : List Waypoint) (ttl : ℕ)
      → same_names msg.joint_names joints ≡ true
      → Matches msg.points points
      → All (IsWaypoint (length joints)) points
      → (duration : ℕ) → duration_of points ≡ ok duration
      → duration ≤ ttl
      → Accepts msg joints (joint_trajectory points ttl)

finite_tests :
    (p : Point) (joints : List String)
    → (not (length p.positions == length joints) || not (all is_finite p.positions)) ≡ false
    → (length p.positions ≡ length joints) × (all is_finite p.positions ≡ true)
finite_tests p joints h = ground arith

waypoint-IsWaypoint :
    (joints : List String) (p : Point) (w : Waypoint)
    → waypoint joints p ≡ ok w
    → (w.positions ≡ p.positions)
      × (millis p.time_from_start ≡ ok w.time_from_start_ms)
      × IsWaypoint (length joints) w
unfolding waypoint
waypoint-IsWaypoint joints p w h =
    let (_, h1) = passed _ _ h in
    let (tests, h2) =
      passed (not (length p.positions == length joints) || not (all is_finite p.positions)) _ h1 in
    let (time, ht, h3) = >>=-eq-ok (millis p.time_from_start) _ h2 in
    let e = ok-injective h3 in
    let same : (length p.positions ≡ length joints) × (all is_finite p.positions ≡ true) =
      finite_tests p joints tests in
    (
      sym (ap (λ x. x.positions) e),
      ht ∙ ap (λ x. ok x.time_from_start_ms) e,
      subst (IsWaypoint (length joints)) e (record { its_length = same.0; its_finite = same.1 }),
    )

waypoints-Matches :
    (joints : List String) (ps : List Point) (ws : List Waypoint)
    → waypoints joints ps ≡ ok ws
    → Matches ps ws × All (IsWaypoint (length joints)) ws
unfolding waypoints
waypoints-Matches joints [] [] h = (tt, tt)
waypoints-Matches joints [] (w ∷ ws) h = cc
waypoints-Matches joints (p ∷ ps) ws h =
    let (v, hv, h1) = >>=-eq-ok (waypoint joints p) _ h in
    let (vs, hvs, h2) = >>=-eq-ok (waypoints joints ps) _ h1 in
    let (e, t, good) = waypoint-IsWaypoint joints p v hv in
    let (rest, all_good) = waypoints-Matches joints ps vs hvs in
    subst (λ x. Matches (p ∷ ps) x × All (IsWaypoint (length joints)) x) (ok-injective h2)
      (((e, t), rest), (good, all_good))

planned-Accepts :
    (msg : Trajectory) (joints : List String) (fixed : ℕ) (points : List Waypoint) (action : Action)
    → same_names msg.joint_names joints ≡ true
    → Matches msg.points points
    → All (IsWaypoint (length joints)) points
    → planned fixed points ≡ ok action
    → Accepts msg joints action
unfolding planned
planned-Accepts msg joints fixed points action names matches good h =
    let (duration, last, k) = >>=-eq-ok (duration_of points) _ h in
    go duration last (not (fixed == 0) && ltb fixed duration) refl k
  where
    go :
        (duration : ℕ)
        → duration_of points ≡ ok duration
        → (b : Bool) → (not (fixed == 0) && ltb fixed duration) ≡ b
        → (if b
            then err invalid_proposal
            else ok (joint_trajectory points (if fixed == 0 then duration else fixed)))
          ≡ ok action
        → Accepts msg joints action
    go duration last true e k = cc
    go duration last false e k =
        subst (Accepts msg joints) (ok-injective k)
          (plan points _ names matches good duration last (ground arith))

is_empty-eq : (ps : List Point) → is_empty ps ≡ true → ps ≡ []
is_empty-eq [] e = refl
is_empty-eq (p ∷ ps) e = cc

-- An accepted arm proposal is a stop for a message with no points, or the plan of the message: its
-- joint names, a waypoint for each point with finite positions, one for each joint, and a lease no
-- shorter than the time of the last waypoint.
pub arm_action-Accepts :
    (msg : Trajectory) (joints : List String) (fixed_ttl_ms : Json) (action : Action)
    → arm_action msg joints fixed_ttl_ms ≡ ok action
    → Accepts msg joints action
unfolding arm_action
arm_action-Accepts msg joints fixed_ttl_ms action h =
    let (fixed, _, h1) = >>=-eq-ok (fixed_lease fixed_ttl_ms) _ h in
    let (names, h2) = passed (not (same_names msg.joint_names joints)) _ h1 in
    go (is_empty msg.points) refl fixed (ground arith) h2
  where
    go :
        (b : Bool)
        → is_empty msg.points ≡ b
        → (fixed : ℕ) → same_names msg.joint_names joints ≡ true
        → (if b then ok stop else do points ← waypoints joints msg.points; planned fixed points)
          ≡ ok action
        → Accepts msg joints action
    go true e fixed names k =
        subst (Accepts msg joints) (ok-injective k) (nothing (is_empty-eq msg.points e))
    go false e fixed names k =
        let (points, hp, k1) = >>=-eq-ok (waypoints joints msg.points) _ k in
        let (matches, good) = waypoints-Matches joints msg.points points hp in
        planned-Accepts msg joints fixed points action names matches good k1
