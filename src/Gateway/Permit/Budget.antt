-- ===== src/Gateway/Permit/Budget.antt =====
-- What is left of the authority where `_permit` of node.py signs.
use haetae.Prelude.{
  ℕ, ◌+◌, ◌-◌, ◌*◌, ◌/◌, ◌≤◌, ◌<◌, ◌≡◌, ◌⊎◌, inl, inr, refl, sym, ap, subst, arith, Bool, true,
  false, not, some, List, ◌∷◌, ◌++◌,
}
use haetae.Prelude.Int.{ℤ, pos, negsuc, pos_part, ◌+ℤ◌, ◌-ℤ◌, ◌≤ℤ◌, ◌<ℤ◌, max_ℤ, int_laws}
use haetae.Python.{Error, ok, value_error, expired_actuation}
use haetae.Python.Action.{raise_unless, ◌>>=◌}
use haetae.Python.Action.Moves.{bind-eq-ok}
use haetae.Permits.Signer.{Target, Kind, stop, Permit, body, lease_of, issued}
use haetae.Permits.Signer.Issue.{sign-issued}
use haetae.Gateway.{Env, Gate}
use haetae.Gateway.Permit.{Ages, ages_at, has_budget, is_stop, signs, permit, permit_positive}

-- A permit that `_permit` signs, against its readings of the clocks.
pub record Budgeted (env : Env) (kind : Kind) (frame : List ℕ) (g : Gate) (now_ns wall_ns : ℕ)
    (p : Permit) : Type 0 where
  pub its_frame : frame ≡ body p ++ b':' ∷ env.sign_hex (body p)
  pub its_kind : p.kind ≡ kind
  pub sim_past : g.permit_sim_ns ≤ now_ns
  pub wall_past : g.permit_wall_ns ≤ wall_ns
  pub sim_recent : now_ns + g.permits.sim_backdate_ns < g.permit_sim_ns + 50000000
  pub wall_recent : wall_ns < g.permit_wall_ns + 50000000
  pub sim_world :
      now_ns + g.permits.sim_backdate_ns + 50000000 < g.permit_sim_ns + g.permit_world_remaining_ns
  pub wall_world : wall_ns + 50000000 < g.permit_wall_ns + g.permit_world_remaining_ns
  pub sim_left : now_ns + 50000000 < p.sim_expires_ns
  pub wall_left : wall_ns + 50000000 < p.wall_expires_ns

-- Both clocks went forward for less than 50 ms since the request, and more than 50 ms are left of
-- the proposal's authority and of the world's.
record Aged (a : Ages) (g : Gate) : Type 0 where
  sim_forward : pos 0 ≤ℤ a.sim_age
  wall_forward : pos 0 ≤ℤ a.wall_age
  prompt : a.age <ℤ pos 50000000
  authority : pos 50000000 <ℤ g.permit_remaining_ns -ℤ a.age
  world : pos 50000000 <ℤ pos g.permit_world_remaining_ns -ℤ a.age

has_budget-Aged : (a : Ages) (g : Gate) → has_budget a g ≡ true → Aged a g
has_budget-Aged a g h = record {
  sim_forward = ground arith;
  wall_forward = ground arith;
  prompt = ground arith;
  authority = ground arith;
  world = ground arith;
}

passed :
    (b : Bool) (e : Error) (g h : Gate) → raise_unless b e g ≡ (ok tt, h) → (b ≡ true) × (h ≡ g)
passed true e g h p = (refl, sym (ap (λ x. x.1) p))
passed false e g h p = cc

max_above : (a b : ℤ) → (a ≤ℤ max_ℤ a b) × (b ≤ℤ max_ℤ a b)
max_above a b = ground arith

module _ (now wall back s w : ℕ) (age r : ℤ) where
  past : pos 0 ≤ℤ pos now -ℤ pos s → s ≤ now
  past h = omega int_laws

  recent :
      ((pos now -ℤ pos s) +ℤ pos back ≤ℤ age) × (pos wall -ℤ pos w ≤ℤ age)
      → age <ℤ pos 50000000
      → (now + back < s + 50000000) × (wall < w + 50000000)
  recent (h, k) l = (omega int_laws, omega int_laws)

  spare :
      ((pos now -ℤ pos s) +ℤ pos back ≤ℤ age) × (pos wall -ℤ pos w ≤ℤ age)
      → pos 50000000 <ℤ r -ℤ age
      → (now + back + 50000000 < s + pos_part r) × (wall + 50000000 < w + pos_part r)
  spare (h, k) l = (omega int_laws, omega int_laws)

lease_of_eq :
    (r : ℤ) (lease_ns : ℕ)
    → lease_of r ≡ some lease_ns
    → (lease_ns ≡ pos_part r) ⊎ (lease_ns ≡ 200000000)
lease_of_eq (pos r) l h = ground arith
lease_of_eq (negsuc r) l h = cc

-- A lease of what remains, or of 200 ms, outlasts the readings by 50 ms.
outlasts :
    (now back s origin r lease_ns : ℕ)
    → s ≤ origin + back
    → now + back < s + 50000000
    → now + back + 50000000 < s + r
    → (lease_ns ≡ r) ⊎ (lease_ns ≡ 200000000)
    → now + 50000000 < origin + lease_ns
outlasts now back s origin r l g h k (inl e) = omega arith
outlasts now back s origin r l g h k (inr e) = omega arith

of_issued :
    (env : Env) (target : Target) (kind : Kind) (digest frame challenge : List ℕ)
    (lease_ns now_ms : ℕ) (wall_ns : ℕ) (g : Gate)
    → Aged (ages_at now_ms wall_ns g) g
    → lease_of g.permit_remaining_ns ≡ some lease_ns
    → frame
      ≡ body
          (issued target kind digest challenge g.permit_sim_ns lease_ns g.permit_wall_ns
            g.permits).0
        ++ b':'
          ∷ env.sign_hex (
              body
                (issued target kind digest challenge g.permit_sim_ns lease_ns g.permit_wall_ns
                  g.permits).0)
    → Budgeted env kind frame g
        (now_ms * 1000000)
        wall_ns
        (issued target kind digest challenge g.permit_sim_ns lease_ns g.permit_wall_ns g.permits).0
of_issued env target kind digest frame challenge lease_ns now_ms wall_ns g aged l e =
    let now = now_ms * 1000000 in
    let back = g.permits.sim_backdate_ns in
    let age = (ages_at now_ms wall_ns g).age in
    let above =
      max_above ((pos now -ℤ pos g.permit_sim_ns) +ℤ pos back)
        (pos wall_ns -ℤ pos g.permit_wall_ns) in
    let (sim, wall) =
      recent now wall_ns back g.permit_sim_ns g.permit_wall_ns age (pos 0) above aged.prompt in
    let (sim_left, wall_left) =
      spare now wall_ns back g.permit_sim_ns g.permit_wall_ns age g.permit_remaining_ns above
        aged.authority in
    let (sim_world, wall_world) =
      spare now wall_ns back g.permit_sim_ns g.permit_wall_ns age (pos g.permit_world_remaining_ns)
        above aged.world in
    let length_of = lease_of_eq g.permit_remaining_ns lease_ns l in
    record {
      its_frame = e;
      its_kind = refl;
      sim_past =
          past now wall_ns back g.permit_sim_ns g.permit_wall_ns age (pos 0) aged.sim_forward;
      wall_past =
          past wall_ns wall_ns back g.permit_wall_ns g.permit_wall_ns age (pos 0) aged.wall_forward;
      sim_recent = sim;
      wall_recent = wall;
      sim_world = sim_world;
      wall_world = wall_world;
      sim_left =
          outlasts now back g.permit_sim_ns (g.permit_sim_ns - back) _ lease_ns (omega arith) sim
            sim_left length_of;
      wall_left =
          outlasts wall_ns 0 g.permit_wall_ns g.permit_wall_ns (pos_part g.permit_remaining_ns)
            lease_ns (omega arith) (omega arith) (omega arith) length_of;
    }

budgeted :
    (env : Env) (target : Target) (kind : Kind) (digest frame : List ℕ) (g h : Gate)
    → permit_positive env target kind digest g ≡ (ok frame, h)
    → (p : Permit) × Budgeted env kind frame g
        (env.ros_ns g.ticks / 1000000 * 1000000)
        (env.mono_ns (g.ticks + 1))
        p
unfolding permit_positive ◌>>=◌
budgeted env target kind digest frame g h p =
    let a = ages_at (env.ros_ns g.ticks / 1000000) (env.mono_ns (g.ticks + 1)) g in
    let t = record g { ticks = g.ticks + 1 + 1 } in
    let (_, u, e, q) = bind-eq-ok (raise_unless (has_budget a g) expired_actuation) _ t p in
    let (good, same) = passed (has_budget a g) expired_actuation t u e in
    let signing =
      subst
        (λ x.
          signs env.sign_hex target kind digest x.permit_sim_ns x.permit_remaining_ns
            x.permit_wall_ns x
          ≡ (ok frame, h))
        same q in
    let (challenge, lease_ns, l, its) =
      sign-issued env.sign_hex target kind digest g.permit_sim_ns g.permit_remaining_ns
        g.permit_wall_ns g.permits frame (ap (λ x. x.0) signing) in
    (
      _,
      of_issued env target kind digest frame challenge lease_ns (env.ros_ns g.ticks / 1000000)
          (env.mono_ns (g.ticks + 1)) g (has_budget-Aged a g good) l its,
    )

is_stop-eq : (kind : Kind) → not (is_stop kind) ≡ true → kind ≡ stop → ⊥
is_stop-eq kind h e = ground arith

-- Where `_permit` returns, it has signed a permit of a kind other than stop, and by each of the two
-- clocks that it read (simulation time in whole milliseconds, with the backdating where an age is
-- counted): the request lies not in the future and less than 50 ms back, the accepted world has
-- more than 50 ms left, and so has the lease of the permit itself.
pub permit-Budgeted :
    (env : Env) (target : Target) (kind : Kind) (digest frame : List ℕ) (g h : Gate)
    → permit env target kind digest g ≡ (ok frame, h)
    → (kind ≡ stop → ⊥)
      × ((p : Permit) × Budgeted env kind frame g
            (env.ros_ns g.ticks / 1000000 * 1000000)
            (env.mono_ns (g.ticks + 1))
            p)
unfolding permit
permit-Budgeted env target kind digest frame g h p =
    let (_, t, e, q) = bind-eq-ok (raise_unless (not (is_stop kind)) value_error) _ g p in
    let (positive, same) = passed (not (is_stop kind)) value_error g t e in
    (
      is_stop-eq kind positive,
      budgeted env target kind digest frame g h
          (subst (λ x. permit_positive env target kind digest x ≡ (ok frame, h)) same q),
    )
