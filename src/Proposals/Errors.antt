-- ===== src/Proposals/Errors.antt =====
-- `arm_action` of proposals.py raises nothing but InvalidProposal.
use haetae.Prelude.{
  ℕ, ◌≡◌, refl, sym, ◌∙◌, ap, subst, Bool, true, false, not, ◌&&◌, ◌||◌, String, List, [], ◌∷◌,
  ◌==◌, all, length, ltb, if◌then◌else◌,
}
use haetae.Prelude.Int.{ℤ, pos, negsuc}
use haetae.Python.{Error, Result, ok, err, invalid_proposal, ◌>>=◌, raise_if}
use haetae.Python.Values.{Json, int}
use haetae.Python.Double.{is_finite, is_zero}
use haetae.Proposals.Accepted.{waypoints-duration}
use haetae.Permits.Digest.{same_names, Stamp, Command, Point, Trajectory, is_empty}
use haetae.Proposals.{
  Waypoint, joint_trajectory, stop, unsupported, base_action, fixed_lease, millis, waypoint,
  waypoints, planned, arm_action, duration_of,
}

abbrev Refuses : {A : Type 0} → Result A → Type 0
Refuses m = (e : Error) → m ≡ err e → e ≡ invalid_proposal

err-injective : {A : Type 0} {e f : Error} → ◌≡◌ {A = Result A} (err e) (err f) → e ≡ f
err-injective h = cc

ok-Refuses : {A : Type 0} (x : A) → Refuses (ok x)
ok-Refuses x e h = cc

refused :
    {A : Type 0} (e : Error)
    → ◌≡◌ {A = Result A} (err invalid_proposal) (err e)
    → e ≡ invalid_proposal
refused e h = sym (err-injective h)

if-Refuses :
    {A : Type 0} (b : Bool) {m n : Result A} → Refuses m → Refuses n → Refuses (if b then m else n)
if-Refuses true f g = f
if-Refuses false f g = g

raise_if-Refuses : (b : Bool) → Refuses (raise_if b invalid_proposal)
raise_if-Refuses true = refused
raise_if-Refuses false = ok-Refuses tt

>>=-Refuses :
    {A B : Type 0} (m : Result A) (f : A → Result B)
    → Refuses m
    → ((x : A) → Refuses (f x))
    → Refuses (m >>= f)
>>=-Refuses (err e) f h k e' p = h e' (ap err (err-injective p))
>>=-Refuses (ok x) f h k e' p = k x e' p

base_action-Refuses : (msg : Command) (ttl : ℕ) → Refuses (base_action msg ttl)
unfolding base_action
base_action-Refuses msg ttl =
    >>=-Refuses _ _ (raise_if-Refuses (not (all is_zero (unsupported msg.twist)))) (λ _.
      >>=-Refuses _ _
        (raise_if-Refuses (not (is_finite msg.twist.linear_x && is_finite msg.twist.angular_z)))
        (λ _. ok-Refuses _))

fixed_lease-Refuses : (v : Json) → Refuses (fixed_lease v)
unfolding fixed_lease
fixed_lease-Refuses (int (pos n)) = if-Refuses (n == 0 || n == 1000) (ok-Refuses n) refused
fixed_lease-Refuses (int (negsuc n)) = refused
fixed_lease-Refuses _ = refused

millis-Refuses : (time : Stamp) → Refuses (millis time)
unfolding millis
millis-Refuses time = go time.sec
  where
    go : (sec : ℤ) → Refuses (millis (record { sec = sec; nanosec = time.nanosec }))
    go (pos n) = if-Refuses (ltb time.nanosec 1000000000) (ok-Refuses _) refused
    go (negsuc n) = refused

waypoint-Refuses : (joints : List String) (p : Point) → Refuses (waypoint joints p)
unfolding waypoint
waypoint-Refuses joints p =
    >>=-Refuses _ _
      (raise_if-Refuses
        (not (is_empty p.velocities && is_empty p.accelerations && is_empty p.effort)))
      (λ _.
        >>=-Refuses _ _
          (raise_if-Refuses
            (not (length p.positions == length joints) || not (all is_finite p.positions)))
          (λ _.
            >>=-Refuses (millis p.time_from_start) _ (millis-Refuses p.time_from_start)
              (λ _. ok-Refuses _)))

waypoints-Refuses : (joints : List String) (ps : List Point) → Refuses (waypoints joints ps)
unfolding waypoints
waypoints-Refuses joints [] = ok-Refuses []
waypoints-Refuses joints (p ∷ ps) =
    >>=-Refuses (waypoint joints p) _ (waypoint-Refuses joints p)
      (λ _. >>=-Refuses (waypoints joints ps) _ (waypoints-Refuses joints ps) (λ _. ok-Refuses _))

planned-Refuses :
    (fixed : ℕ) (points : List Waypoint) (duration : ℕ)
    → duration_of points ≡ ok duration
    → Refuses (planned fixed points)
unfolding planned
planned-Refuses fixed points duration last =
    subst
      (λ m. Refuses (do
        duration ← m
        if not (fixed == 0) && ltb fixed duration
            then err invalid_proposal
            else ok (joint_trajectory points (if fixed == 0 then duration else fixed))))
      (sym last) (if-Refuses (not (fixed == 0) && ltb fixed duration) refused (ok-Refuses _))

plan-Refuses :
    (joints : List String) (fixed : ℕ) (ps : List Point)
    → Refuses
        (if is_empty ps then ok stop else do points ← waypoints joints ps; planned fixed points)
plan-Refuses joints fixed [] = ok-Refuses stop
plan-Refuses joints fixed (p ∷ ps) = go (waypoints joints (p ∷ ps)) refl
  where
    go :
        (m : Result (List Waypoint)) → waypoints joints (p ∷ ps) ≡ m → Refuses (m >>= planned fixed)
    go (err raised) h = λ e k. waypoints-Refuses joints (p ∷ ps) e (h ∙ ap err (err-injective k))
    go (ok points) h =
        let (duration, last) = waypoints-duration joints p ps points h in
        planned-Refuses fixed points duration last

-- Whatever goal the policy sends and however the lease and the joints are set, `arm_action` returns
-- an action or raises InvalidProposal: it never takes the last waypoint of a plan without points.
pub arm_action_raises :
    (msg : Trajectory) (joints : List String) (fixed_ttl_ms : Json) (e : Error)
    → arm_action msg joints fixed_ttl_ms ≡ err e
    → e ≡ invalid_proposal
unfolding arm_action
arm_action_raises msg joints fixed_ttl_ms =
    >>=-Refuses (fixed_lease fixed_ttl_ms) _ (fixed_lease-Refuses fixed_ttl_ms) (λ fixed.
      >>=-Refuses _ _ (raise_if-Refuses (not (same_names msg.joint_names joints)))
        (λ _. plan-Refuses joints fixed msg.points))
