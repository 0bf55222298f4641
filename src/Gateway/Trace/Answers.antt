-- ===== src/Gateway/Trace/Answers.antt =====
-- What an answer that is obeyed makes the gate send: its commands, and the renewal of the lease.
use haetae.Prelude.{ℕ, ◌≡◌, inl, inr, arith, Bool, true, false, not, List}
use haetae.Prelude.Int.{ℤ}
use haetae.Python.{ok}
use haetae.Python.Action.{◌>>=◌, when}
use haetae.Python.Action.Moves.{Moves, if-Moves, bind-at, bind-lift-Moves}
use haetae.Python.Values.{Json}
use haetae.Bridge.{lease_renewable}
use haetae.Permits.Rearm.{explicit_rearm}
use haetae.Permits.Signer.{Kind}
use haetae.Gateway.{Config, Env, Output, token, plain_beat}
use haetae.Gateway.Publish.{publish}
use haetae.Gateway.Receive.{renew_as, heartbeat, set_authority, obey}
use haetae.Gateway.Trace.{
  Harmless, Step, Step-path, step_rules, modify-Step, bind-Step, gets-Step, pure-Step, when-Step,
  if-Step, any_reset, emit-Step,
}
use haetae.Gateway.Trace.Stops.{permit-Step}
use haetae.Gateway.Trace.Steps.{From, Reset, publish-Step, publish-Reset}

-- A lease, or a reset, for a step that is renewable.
abbrev pub Renews : Config → Json → ℤ → Output → Type 0
Renews config step elapsed (token Kind.lease frame) =
    lease_renewable step elapsed config.world_max_age_ms config.max_actuation_response_ms ≡ ok true
Renews config step elapsed (token Kind.reset frame) =
    (lease_renewable step elapsed config.world_max_age_ms config.max_actuation_response_ms
      ≡ ok true)
    × (explicit_rearm step ≡ ok true)
Renews config step elapsed (plain_beat started) =
    lease_renewable step elapsed config.world_max_age_ms config.max_actuation_response_ms ≡ ok true
Renews config step elapsed _ = ⊥

module _ {P : Output → Type 0} (env : Env) (config : Config) (step : Json) (elapsed : ℤ)
    (idle_ok : (o : Output) → Harmless o → P o)
    (renew_ok : (o : Output) → Renews config step elapsed o → P o)
    (renewable : lease_renewable step elapsed config.world_max_age_ms
        config.max_actuation_response_ms
      ≡ ok true) where
  renew_as-Step :
      (b : Bool)
      → config.has_permits ≡ true
      → Reset config step b
      → Moves (Step P (Reset config step)) (renew_as env config b)
  unfolding renew_as
  renew_as-Step true h (inr (inr rearmed)) =
      let p = λ (frame : List ℕ). renew_ok (token Kind.reset frame) (renewable, rearmed) in
      search (step_rules, permit-Step, modify-Step, p) depth 30
  renew_as-Step true h (inr (inl none')) = cc
  renew_as-Step true h (inl e) = cc
  renew_as-Step false h k =
      let p = λ (frame : List ℕ). renew_ok (token Kind.lease frame) renewable in
      search (step_rules, permit-Step, p) depth 30

  heartbeat-Step : (started : ℕ) → Moves (Step P (Reset config step)) (heartbeat env config started)
  unfolding heartbeat ◌>>=◌
  heartbeat-Step started =
      if-Moves Step-path (not config.has_permits) _ _
        (λ _. emit-Step _ (renew_ok (plain_beat started) renewable))
        (λ h. record {
          at = λ g r.
              (if-Step _ _ _ (pure-Step tt) (renew_as-Step g.permit_reset (ground arith) r)).at g r;
        })

module _ {P : Output → Type 0} (env : Env) (config : Config) (step : Json) (elapsed : ℤ)
    (idle_ok : (o : Output) → Harmless o → P o) (from_ok : (o : Output) → From env step o → P o)
    (renew_ok : (o : Output) → Renews config step elapsed o → P o) where
  set_authority-Step :
      {R : Bool → Type 0} (started : ℕ) → Moves (Step P R) (set_authority env config step started)
  unfolding set_authority
  set_authority-Step started = search (step_rules, modify-Step) depth 40

  beat-Step :
      (started : ℕ) (renewable : Bool)
      → lease_renewable step elapsed config.world_max_age_ms config.max_actuation_response_ms
        ≡ ok renewable
      → Moves (Step P (Reset config step)) (when renewable (heartbeat env config started))
  beat-Step started true h = heartbeat-Step env config step elapsed idle_ok renew_ok h started
  beat-Step started false h = pure-Step tt

  pub obey-Step : (started : ℕ) → Moves (Step P (λ _. Unit)) (obey env config step started elapsed)
  unfolding obey
  obey-Step started =
      bind-Step _ _ (when-Step config.has_permits _ (set_authority-Step started)) (λ _. record {
        at = λ g.
            bind-at Step-path (publish env config step) _ g
              ((publish-Step env config step idle_ok from_ok).at g)
              (λ retiring h e _. any_reset h _ (
                (bind-Step _ _ (gets-Step _) (λ may.
                    if-Step (not may) _ _ (pure-Step tt)
                      (bind-lift-Moves Step-path _ _ (beat-Step started)))).at
                  h (publish-Reset env config step idle_ok from_ok g h retiring e)));
      })
