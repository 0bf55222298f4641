-- ===== src/Gateway/Permit.antt =====
-- `_permit` and `_stop_permit` of node.py: no positive permit is signed on an authority that is
-- about to run out.
pub mod Budget
use haetae.Prelude.{
  ℕ, ◌*◌, ◌+◌, Bool, true, false, not, ◌&&◌, ◌||◌, Option, none, some, List, if◌then◌else◌,
}
use haetae.Prelude.Int.{ℤ, pos, ◌+ℤ◌, ◌-ℤ◌, ltb_ℤ, leb_ℤ, min_ℤ, max_ℤ}
use haetae.Python.{Result, ok, err, value_error, expired_actuation}
use haetae.Python.Action.{Action, pure, lift, gets, ◌>>=◌, ◌>>◌, raise_unless}
use haetae.Permits.Signer.{Target, Kind, PermitSigner, stop, sign}
use haetae.Gateway.{Env, Gate, Method, now, monotonic}

-- The ages of the request by both clocks, and the greater one with the backdating.
pub record Ages : Type 0 where
  pub sim_age : ℤ
  pub wall_age : ℤ
  pub age : ℤ

abbrev pub ages_at : ℕ → ℕ → Gate → Ages
ages_at now_ms wall_ns g =
    let sim_age = pos (now_ms * 1000000) -ℤ pos g.permit_sim_ns in
    let wall_age = pos wall_ns -ℤ pos g.permit_wall_ns in
    record {
      sim_age = sim_age;
      wall_age = wall_age;
      age = max_ℤ (sim_age +ℤ pos g.permits.sim_backdate_ns) wall_age;
    }

-- `min(sim_age, wall_age) >= 0 and age < 50_000_000`
abbrev pub is_prompt : Ages → Bool
is_prompt a = leb_ℤ (pos 0) (min_ℤ a.sim_age a.wall_age) && ltb_ℤ a.age (pos 50000000)

-- The tests of `_permit` behind the readings.
abbrev pub has_budget : Ages → Gate → Bool
has_budget a g =
    not (is_prompt a && leb_ℤ (pos g.permit_world_remaining_ns -ℤ a.age) (pos 50000000))
    && not (not (is_prompt a) || leb_ℤ (g.permit_remaining_ns -ℤ a.age) (pos 50000000))

abbrev pub is_stop : Kind → Bool
is_stop stop = true
is_stop _ = false

-- `PermitSigner.sign`, on the gate's signer.
abbrev pub signs : (List ℕ → List ℕ) → Target → Kind → List ℕ → ℕ → ℤ → ℕ → Method (List ℕ)
signs sign_hex target kind digest sim_ns remaining_ns wall_ns g =
    let (result, permits) =
      sign sign_hex target kind digest sim_ns remaining_ns wall_ns g.permits in
    (result, record g { permits = permits })

module _ (env : Env) where
  -- Behind the test of the kind.
  unfoldable pub permit_positive : Target → Kind → List ℕ → Method (List ℕ)
  permit_positive target kind digest = do
    now_ms ← now env
    wall_ns ← monotonic env
    budget ← gets (λ g. has_budget (ages_at now_ms wall_ns g) g)
    raise_unless budget expired_actuation
    g ← gets (λ g. g)
    signs env.sign_hex target kind digest g.permit_sim_ns g.permit_remaining_ns g.permit_wall_ns

  unfoldable pub permit : Target → Kind → List ℕ → Method (List ℕ)
  unfolding permit_positive
  permit target kind digest = do
    raise_unless (not (is_stop kind)) value_error
    permit_positive target kind digest

  unfoldable pub stop_permit : Target → List ℕ → ℕ → Method (List ℕ)
  stop_permit target digest sim_ns = do
    wall_ns ← monotonic env
    signs env.sign_hex target stop digest sim_ns (pos 200000000) wall_ns
