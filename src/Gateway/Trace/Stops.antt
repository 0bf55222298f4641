-- ===== src/Gateway/Trace/Stops.antt =====
-- The methods that stop send nothing that moves.
use haetae.Prelude.{
  ℕ, ◌≡◌, refl, sym, ap, ◌∙◌, subst, Bool, true, false, not, ◌&&◌, ◌||◌, Option, none, some, List,
  [], ◌∷◌, if◌then◌else◌, leb, arith,
}
use haetae.Python.Values.{Json}
use haetae.Python.{Error}
use haetae.Python.Action.{◌>>=◌, ◌>>◌, modify, when}
use haetae.Python.Action.Moves.{Moves, if-Moves, if-at}
use haetae.Python.Double.{is_zero}
use haetae.Permits.Signer.{Target, Kind, get, base}
use haetae.Gateway.{Config, Env, Gate, Output, commanded, asked, ask}
use haetae.Gateway.Permit.{permit, permit_positive, stop_permit, signs}
use haetae.Gateway.Stop.{
  stop_command, sign_command, is_stopping, signed_command, publish_command, publish_zero,
  signed_stop, set_cancel_deadline, send_cancel, request_cancel, cancel_arm, seal_rejection,
  shut_down, abort, abort_tick, is_none,
}
use haetae.Gateway.Trace.{
  Harmless, Step, step_rules, modify-Step, bind-Step, gets-Step, Step-path, emit-Step, pure-Step,
  if-Step, lift-Step,
}

module _ {P : Output → Type 0} {Reset : Bool → Type 0} (env : Env) where
  pub signs-Step :
      (sign_hex : List ℕ → List ℕ) (target : Target) (kind : Kind) (digest : List ℕ) (sim wall : ℕ)
      (remaining : haetae.Prelude.Int.ℤ)
      → Moves (Step P Reset) (signs sign_hex target kind digest sim remaining wall)
  signs-Step sign_hex target kind digest sim wall remaining = record {
    at = λ g k. record { new = []; grown = refl; allowed = tt; still_failed = λ e. e; resets = k };
  }

  pub permit-Step :
      (target : Target) (kind : Kind) (digest : List ℕ)
      → Moves (Step P Reset) (permit env target kind digest)
  unfolding permit permit_positive
  permit-Step target kind digest = search (step_rules, signs-Step) depth 16

  pub stop_permit-Step :
      (target : Target) (digest : List ℕ) (sim : ℕ)
      → Moves (Step P Reset) (stop_permit env target digest sim)
  unfolding stop_permit
  stop_permit-Step target digest sim = search (step_rules, signs-Step) depth 16

-- The outputs that are allowed, as far as a command needs them.
pub record Commands (config : Config) (P : Output → Type 0) (Reset : Bool → Type 0)
    (linear angular : ℕ) : Type 0 where
  pub plain : P (commanded linear angular none)
  pub stops :
      is_zero linear ≡ true
      → is_zero angular ≡ true
      → (frame : List ℕ) → P (commanded linear angular (some (Kind.stop, frame)))
  pub drives : (frame : List ℕ) → P (commanded linear angular (some (Kind.command, frame)))
  pub resets :
      config.has_permits ≡ true
      → Reset true
      → (frame : List ℕ) → P (commanded linear angular (some (Kind.reset, frame)))

module _ {P : Output → Type 0} {Reset : Bool → Type 0} (env : Env) (config : Config) where
  stop_command-Step :
      (linear angular : ℕ)
      → ((frame : List ℕ) → P (commanded linear angular (some (Kind.stop, frame))))
      → Moves (Step P Reset) (stop_command env config linear angular)
  unfolding stop_command
  stop_command-Step linear angular p = search (step_rules, stop_permit-Step) depth 16

  sign_command-Step :
      (resets : Bool) (sim linear angular : ℕ)
      → config.has_permits ≡ true
      → Reset resets
      → Commands config P Reset linear angular
      → Moves (Step P Reset) (sign_command env config resets sim linear angular)
  unfolding sign_command
  sign_command-Step true sim linear angular h k p =
      let allowed = p.resets h k in search (step_rules, permit-Step) depth 16
  sign_command-Step false sim linear angular h k p =
      let allowed = p.drives in search (step_rules, permit-Step) depth 16

  signed_command-Step :
      (linear angular : ℕ)
      → config.has_permits ≡ true
      → Commands config P Reset linear angular
      → Moves (Step P Reset) (signed_command env config linear angular)
  unfolding signed_command ◌>>=◌
  signed_command-Step linear angular h p = record {
    at = λ g k.
        (if-Moves Step-path (is_stopping env config linear angular g) _ _
            (λ h'. stop_command-Step linear angular (p.stops (ground arith) (ground arith)))
            (λ _. sign_command-Step g.permit_reset g.permit_sim_ns linear angular h k p)).at
          g k;
  }

  pub publish_command-Step :
      (linear angular : ℕ)
      → Commands config P Reset linear angular
      → Moves (Step P Reset) (publish_command env config linear angular)
  unfolding publish_command
  publish_command-Step linear angular p =
      if-Moves Step-path (not config.has_permits) _ _ (λ _. emit-Step _ p.plain)
        (λ h. bind-Step _ _ (gets-Step _) (λ absent.
          if-Step absent _ _
            (if-Step (not (is_zero linear && is_zero angular)) _ _ (lift-Step _) (pure-Step tt))
            (signed_command-Step linear angular (ground arith) p)))

-- Nothing but what is harmless, where `Reset false` holds.
module _ {P : Output → Type 0} {Reset : Bool → Type 0} (env : Env) (config : Config)
    (idle_ok : (o : Output) → Harmless o → P o) (off : Reset false) where
  zero_signed :
      (g : Gate)
      → g.permit_reset ≡ false
      → g.permit_stop ≡ true
      → Step P Reset g (signed_command env config 0 0 g).1
  unfolding signed_command ◌>>=◌ is_zero
  zero_signed g r t =
      if-at Step-path (is_stopping env config 0 0 g) _ _ g
        (λ _. (stop_command-Step env config 0 0 (λ frame. idle_ok _ (refl, refl, tt))).at g)
        (λ h. ground arith)

  -- The flags are set, where there are permits.
  zero_command :
      (g : Gate)
      → (config.has_permits ≡ true → (g.permit_reset ≡ false) × (g.permit_stop ≡ true))
      → Step P Reset g (publish_command env config 0 0 g).1
  unfolding publish_command ◌>>=◌ is_zero
  zero_command g set' =
      if-at Step-path (not config.has_permits) _ _ g
        (λ _. (emit-Step _ (idle_ok _ (refl, refl, tt))).at g)
        (λ h.
          let (r, t) = set' (ground arith) in
          if-at Step-path (is_none (get base g.permits.challenges)) _ _ g (λ _. (pure-Step tt).at g)
            (λ _. zero_signed g r t))

  revoke : (g : Gate) → Step P Reset g (record g { permit_reset = false; permit_stop = true })
  revoke g k = record { new = []; grown = refl; allowed = tt; still_failed = λ e. e; resets = off }

  pub publish_zero-Step : Moves (Step P Reset) (publish_zero env config)
  unfolding publish_zero ◌>>=◌
  publish_zero-Step = record { at = λ g. by_permits config.has_permits refl g }
    where
      by_permits :
          (b : Bool)
          → config.has_permits ≡ b
          → (g : Gate)
          → Step P Reset g
              ((do
                when b (modify (λ g. record g { permit_reset = false; permit_stop = true }))
                publish_command env config 0 0)
                g).1
      by_permits true e g = Step-path.join g _ _ (revoke g) (zero_command _ (λ _. (refl, refl)))
      by_permits false e g = zero_command g (λ h. cc)

  signed_stop-Step : Moves (Step P Reset) (signed_stop env config)
  unfolding signed_stop
  signed_stop-Step = search (step_rules, modify-Step, stop_permit-Step, idle_ok) depth 24

  request_cancel-Step : (stopped : Bool) → Moves (Step P Reset) (request_cancel env config stopped)
  unfolding request_cancel set_cancel_deadline send_cancel
  request_cancel-Step stopped = search (step_rules, modify-Step, idle_ok) depth 24

  pub cancel_arm-Step : Moves (Step P Reset) (cancel_arm env config)
  unfolding cancel_arm
  cancel_arm-Step = search (step_rules, signed_stop-Step, request_cancel-Step) depth 24

  pub ask-Step : (request : Json) → Moves (Step P Reset) (ask env request)
  ask-Step request = record {
    at = λ g k. record {
      new = asked request ∷ [];
      grown = refl;
      allowed = (idle_ok _ tt, tt);
      still_failed = λ e. e;
      resets = k;
    };
  }

  seal_rejection-Step : (e : Error) → Moves (Step P Reset) (seal_rejection env config e)
  unfolding seal_rejection
  seal_rejection-Step e = search (step_rules, ask-Step) depth 24

  pub shut_down-Step : (e : Error) → Moves (Step P Reset) (shut_down env config e)
  unfolding shut_down
  shut_down-Step e =
      search
        (step_rules, modify-Step, publish_zero-Step, cancel_arm-Step, seal_rejection-Step, idle_ok)
        depth 30

  fail-Step : Moves (Step P Reset) (modify (λ g. record g { failed = true }))
  fail-Step = record {
    at = λ g k. record {
      new = [];
      grown = refl;
      allowed = tt;
      still_failed = λ e. refl;
      resets = k;
    };
  }

  pub abort-Step : (e : Error) → Moves (Step P Reset) (abort env config e)
  unfolding abort
  abort-Step e = search (step_rules, fail-Step, shut_down-Step) depth 24

  pub abort_tick-Step : Moves (Step P Reset) (abort_tick env config)
  unfolding abort_tick
  abort_tick-Step = search (step_rules, publish_zero-Step, idle_ok) depth 24
