-- ===== src/Proposals/Signable.antt =====
-- A goal that a permit can be signed for (controller_permits.py) is one that proposals.py accepts.
use haetae.Prelude.{
  ℕ, ◌+◌, ◌*◌, ◌/◌, ◌≤◌, ◌<◌, ◌≡◌, refl, arith, Bool, true, false, not, ◌&&◌, ◌||◌, List, [], ◌∷◌,
  length, all, All, subst, ltb, ◌==◌, if◌then◌else◌, ◌⊎◌, inl, inr,
}
use haetae.Prelude.Int.{ℤ, pos, negsuc}
use haetae.Python.{Result, ok, ok-injective, value_error, ◌>>◌, raise_if}
use haetae.Python.Values.{int}
use haetae.Python.Double.{is_finite, is_zero}
use haetae.Permits.Digest.{
  Command, values, unused, base_message, Stamp, Point, Trajectory, joints, same_names, is_empty,
  is_supported, stamp_ns, nanoseconds, pack_points, arm_message,
}
use haetae.Permits.Digest.Arm.{pack_points-eq, arm_message-eq, arm_checked}
use haetae.Proposals.Accepted.{waypoints-duration}
use haetae.Proposals.{
  Waypoint, Action, stop, velocity, joint_trajectory, fixed_lease, millis, waypoint, waypoints,
  last_time, duration_of, planned, arm_action, base_action, unsupported,
}

millis-stamp_ns :
    (time : Stamp) (duration : ℕ)
    → stamp_ns time ≡ ok duration
    → millis time ≡ ok (duration / 1000000)
unfolding millis stamp_ns
millis-stamp_ns time duration h = go time.sec time.nanosec h
  where
    go :
        (sec : ℤ) (nanosec : ℕ)
        → nanoseconds sec nanosec ≡ ok duration
        → millis (record { sec = sec; nanosec = nanosec }) ≡ ok (duration / 1000000)
    go (negsuc n) nanosec k = cc
    go (pos n) nanosec k =
        let parts : (duration ≡ n * 1000000000 + nanosec) × (nanosec < 1000000000) = ground arith in
        let same : duration / 1000000 ≡ n * 1000 + nanosec / 1000000 = omega arith in ground arith

waypoint-supported :
    (last : ℤ) (duration : ℕ) (p : Point)
    → stamp_ns p.time_from_start ≡ ok duration
    → is_supported last duration p ≡ true
    → (waypoint joints p
        ≡ ok (record { time_from_start_ms = duration / 1000000; positions = p.positions }))
      × (duration ≤ 1000000000)
unfolding waypoint is_supported
waypoint-supported last duration p h k =
    let bare : not (is_empty p.velocities && is_empty p.accelerations && is_empty p.effort)
        ≡ false =
      ground arith in
    let four : (not (length p.positions == 4) || not (all is_finite p.positions)) ≡ false =
      ground arith in
    (rw (bare, four, millis-stamp_ns p.time_from_start duration h, waypoint) refl, ground arith)

nonempty : (ps : List Point) → 1 ≤ length ps → is_empty ps ≡ false
nonempty [] h = absurd (omega arith)
nonempty (p ∷ ps) h = refl

waypoints-packed :
    (last : ℤ) (ps : List Point) (raw : List ℕ)
    → pack_points last ps ≡ ok raw
    → (ws : List Waypoint) × (waypoints joints ps ≡ ok ws)
      × All (λ w. w.time_from_start_ms ≤ 1000) ws
unfolding waypoints
waypoints-packed last [] raw h = ([], refl, tt)
waypoints-packed last (p ∷ ps) raw h =
    let (duration, rest, hd, good, hr, _) = pack_points-eq last p ps raw h in
    let (hw, most) = waypoint-supported last duration p hd good in
    let (ws, hws, bound) = waypoints-packed (pos duration) ps rest hr in
    (
      record { time_from_start_ms = duration / 1000000; positions = p.positions } ∷ ws,
      rw (hw, hws, waypoints) refl,
      (omega arith, bound),
    )

-- The list of the waypoints has a last one, and its time is within a bound of them all.
last_time-bound :
    (time : ℕ) (ws : List Waypoint)
    → time ≤ 1000
    → All (λ w. w.time_from_start_ms ≤ 1000) ws
    → last_time time ws ≤ 1000
last_time-bound time [] h bound = h
last_time-bound time (w ∷ ws) h (first, rest) = last_time-bound _ ws first rest

duration_of-bound :
    (ws : List Waypoint) (duration : ℕ)
    → duration_of ws ≡ ok duration
    → All (λ w. w.time_from_start_ms ≤ 1000) ws
    → duration ≤ 1000
duration_of-bound [] duration h bound = cc
duration_of-bound (w ∷ ws) duration h (first, rest) =
    subst (λ d. d ≤ 1000) (ok-injective h) (last_time-bound _ ws first rest)

last_of :
    (ps : List Point) (ws : List Waypoint)
    → is_empty ps ≡ false
    → waypoints joints ps ≡ ok ws
    → (duration : ℕ) × (duration_of ws ≡ ok duration)
last_of [] ws h k = cc
last_of (p ∷ ps) ws h k = waypoints-duration joints p ps ws k

-- Whatever goal a permit can be signed for, proposals.py accepts it as a plan, with either lease
-- setting: none of its waypoints is later than a second, and its lease is the fixed one, or the
-- time of its last waypoint where none is fixed.
pub arm_message-arm_action :
    (t : Trajectory) (message : List ℕ) (fixed : ℕ)
    → arm_message t ≡ ok message
    → (fixed ≡ 0) ⊎ (fixed ≡ 1000)
    → (points : List Waypoint) × (duration : ℕ) × All (λ w. w.time_from_start_ms ≤ 1000) points
      × (duration_of points ≡ ok duration)
      × (arm_action t joints (int (pos fixed))
          ≡ ok (joint_trajectory points (if fixed == 0 then duration else fixed)))
unfolding arm_message arm_action fixed_lease planned
arm_message-arm_action t message fixed h setting =
    let (bad, _) = arm_checked t _ h in
    let (_, raw, _, _, _, packed, _) = arm_message-eq t message h in
    let (points, hw, bound) = waypoints-packed (negsuc 0) t.points raw packed in
    let lease : (fixed == 0 || fixed == 1000) ≡ true = ground arith in
    let names : not (same_names t.joint_names joints) ≡ false = ground arith in
    let some_points : is_empty t.points ≡ false = nonempty t.points (ground arith) in
    let (duration, last) = last_of t.points points some_points hw in
    let most = duration_of-bound points duration last bound in
    let fits : (not (fixed == 0) && ltb fixed duration) ≡ false = ground arith in
    (
      points,
      duration,
      bound,
      last,
      rw (lease, names, some_points, hw, last, fits, arm_action, fixed_lease, planned) refl,
    )

tested :
    {A : Type 0} (bad : Bool) (rest : Result A) {a : A}
    → (do raise_if bad value_error; rest) ≡ ok a
    → bad ≡ false
tested true rest h = cc
tested false rest h = refl

-- A base command stops where its two velocities are zeros, and is a velocity command otherwise.
abbrev pub StopsOrMoves : Command → ℕ → Result Action → Type 0
StopsOrMoves c ttl r =
    ((is_zero c.twist.linear_x ≡ true) × (is_zero c.twist.angular_z ≡ true) × (r ≡ ok stop))
    ⊎ (((is_zero c.twist.linear_x ≡ false) ⊎ (is_zero c.twist.angular_z ≡ false))
        × (r ≡ ok (velocity c.twist.linear_x c.twist.angular_z ttl)))

some_motion : (a b : Bool) → (a && b) ≡ false → (a ≡ false) ⊎ (b ≡ false)
some_motion true b h = inr h
some_motion false b h = inl refl

-- Whatever base command a permit can be signed for, proposals.py accepts it: as a stop where both
-- of its velocities are zero, and as these two velocities with the asked lease where one of them is
-- not.
pub base_message-base_action :
    (c : Command) (message : List ℕ) (ttl : ℕ)
    → base_message c ≡ ok message
    → StopsOrMoves c ttl (base_action c ttl)
unfolding base_message base_action
base_message-base_action c message ttl h =
    let t =
      tested (not (all is_finite (values c.twist)) || not (all is_zero (unused c.twist))) _ h in
    let zeros : not (all is_zero (unsupported c.twist)) ≡ false = ground arith in
    let finite : not (is_finite c.twist.linear_x && is_finite c.twist.angular_z) ≡ false =
      ground arith in
    by_zero (is_zero c.twist.linear_x && is_zero c.twist.angular_z) refl zeros finite
  where
    by_zero :
        (b : Bool)
        → (is_zero c.twist.linear_x && is_zero c.twist.angular_z) ≡ b
        → not (all is_zero (unsupported c.twist)) ≡ false
        → not (is_finite c.twist.linear_x && is_finite c.twist.angular_z) ≡ false
        → StopsOrMoves c ttl (base_action c ttl)
    by_zero true e z f = inl (ground arith, ground arith, rw (z, f, e, base_action) refl)
    by_zero false e z f = inr (some_motion _ _ e, rw (z, f, e, base_action) refl)
