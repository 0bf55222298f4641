-- ===== src/Gateway/Trace/Steps.antt =====
-- What one answer of the engine can make the gate send (`_publish` of node.py).
use haetae.Prelude.{
  ℕ, ◌≡◌, refl, sym, ap, subst, ◌⊎◌, inl, inr, arith, String, Bool, true, false, not, Option, List,
  [],
}
use haetae.Prelude.Int.{pos}
use haetae.Python.{Result, ok, fields_of}
use haetae.Python.Action.{lift, modify, when}
use haetae.Python.Action.Moves.{Moves, if-Moves, bind-at, bind-lift-Moves, bind-eq-ok}
use haetae.Python.Values.{Json, Fields, find, truthy, obj, str, has, int}
use haetae.Bridge.{executes}
use haetae.Permits.Rearm.{explicit_rearm}
use haetae.Permits.Digest.{Trajectory}
use haetae.Permits.Signer.{Kind}
use haetae.Gateway.{Config, Env, Gate, Output, commanded, goal_sent}
use haetae.Gateway.Points.{double, cmd_field}
use haetae.Gateway.Goals.{
  Status, sign_goal, execute_arm, goal_rejected, goal_accepted, take_goal, on_arm_goal, take_result,
  on_arm_result, take_cancel, on_arm_cancel,
}
use haetae.Gateway.Publish.{
  in_last_window, retire_on, arm_renewal_retiring, set_stop, set_modes, drive, obey_arm,
  controller_ready, publish_status, publish_outcome, send_step, publish,
}
use haetae.Gateway.Trace.{
  Harmless, IsIdle, Step, Adds, Step-path, step_rules, modify-Step, any_reset, bind-Step, lift-Step,
  pure-Step, when-Step,
}
use haetae.Gateway.Trace.Stops.{
  Commands, permit-Step, publish_command-Step, cancel_arm-Step, abort-Step,
}

-- The velocity that the answer names.
abbrev pub Names : Env → Json → String → ℕ → Type 0
Names env step name bits =
    (value : Json) × (cmd_field name step ≡ ok value) × (double env.to_double value ≡ ok bits)

-- A signed command is a reset only for a step that rearms.
abbrev pub Resets : Json → Option (Kind × List ℕ) → Type 0
Resets step signed = IsIdle signed ⊎ (explicit_rearm step ≡ ok true)

-- The output says what the answer says: its velocities, or a goal where it has a plan to execute.
abbrev pub From : Env → Json → Output → Type 0
From env step (commanded linear angular signed) =
    Names env step "linear" linear × Names env step "angular" angular × Resets step signed
From env step (goal_sent trajectory frame) =
    (top : Fields) × (fields_of step ≡ ok top) × (executes (find "arm" top) ≡ true)
From env step _ = ⊥

abbrev pub Reset : Config → Json → Bool → Type 0
Reset config step b = (b ≡ false) ⊎ ((config.has_permits ≡ false) ⊎ (explicit_rearm step ≡ ok true))

module _ {P : Output → Type 0} {R : Bool → Type 0} (env : Env) (config : Config)
    (idle_ok : (o : Output) → Harmless o → P o) (off : R false) where
  pub on_arm_goal-Step : (future : Result Bool) → Moves (Step P R) (on_arm_goal env config future)
  unfolding on_arm_goal take_goal goal_rejected goal_accepted
  on_arm_goal-Step future =
      search (step_rules, modify-Step, cancel_arm-Step, abort-Step, idle_ok) depth 30

  pub on_arm_result-Step :
      (future : Result Status) → Moves (Step P R) (on_arm_result env config future)
  unfolding on_arm_result take_result
  on_arm_result-Step future = search (step_rules, modify-Step, abort-Step, idle_ok) depth 30

  pub on_arm_cancel-Step :
      (future : Result Bool) → Moves (Step P R) (on_arm_cancel env config future)
  unfolding on_arm_cancel take_cancel
  on_arm_cancel-Step future = search (step_rules, modify-Step, abort-Step, idle_ok) depth 30

  sign_goal-Step : (t : Trajectory) → Moves (Step P R) (sign_goal env config t)
  unfolding sign_goal
  sign_goal-Step t = search (step_rules, modify-Step, permit-Step) depth 24

  execute_arm-Step :
      (points : Json)
      → ((t : Trajectory) (frame : Option (List ℕ)) → P (goal_sent t frame))
      → Moves (Step P R) (execute_arm env config points)
  unfolding execute_arm
  execute_arm-Step points sent = search (step_rules, modify-Step, sign_goal-Step, sent) depth 40

  in_last_window-Step : (e w : Json) → Moves (Step P R) (in_last_window env config e w)
  unfolding in_last_window
  in_last_window-Step (int e) (int (pos w)) = search step_rules depth 24
  in_last_window-Step (int e) _ = pure-Step false
  in_last_window-Step _ w = pure-Step false

  retiring-Step : (step : Json) → Moves (Step P R) (arm_renewal_retiring env config step)
  unfolding arm_renewal_retiring retire_on
  retiring-Step step = search (step_rules, in_last_window-Step) depth 40

  publish_status-Step : (status : Json) → Moves (Step P R) (publish_status env config status)
  unfolding publish_status controller_ready
  publish_status-Step status = search (step_rules, idle_ok) depth 30

  publish_outcome-Step : (outcome : Json) → Moves (Step P R) (publish_outcome env config outcome)
  unfolding publish_outcome
  publish_outcome-Step outcome = search (step_rules, idle_ok) depth 30

  -- Only a plan to execute sends a goal.
  obey_arm-Step :
      (output : Json)
      → (executes output ≡ true
          → (t : Trajectory) (frame : Option (List ℕ)) → P (goal_sent t frame))
      → Moves (Step P R) (obey_arm env config output)
  unfolding obey_arm
  obey_arm-Step (obj fields) sent =
      if-Moves Step-path (not (has "execute" fields)) _ _ (λ _. lift-Step _)
        (λ h.
          let goals = sent (ground arith) in search (step_rules, execute_arm-Step, goals) depth 30)
  obey_arm-Step (str text) sent = search (step_rules, cancel_arm-Step, idle_ok) depth 24
  obey_arm-Step _ sent = lift-Step _

  drive-Step :
      (step : Json)
      → ((l a : ℕ)
          → Names env step "linear" l
          → Names env step "angular" a
          → Commands config P R l a)
      → Moves (Step P R) (drive env config step)
  unfolding drive
  drive-Step step allowed = bind-lift-Moves Step-path (cmd_field "linear" step) _ (λ v hv.
      bind-lift-Moves Step-path (double env.to_double v) _ (λ l hl.
        bind-lift-Moves Step-path (cmd_field "angular" step) _ (λ w hw.
          bind-lift-Moves Step-path (double env.to_double w) _
            (λ a ha. publish_command-Step env config l a (allowed l a (v, hv, hl) (w, hw, ha))))))

  pub set_stop-Step : (step : Json) → Moves (Step P R) (set_stop env config step)
  unfolding set_stop
  set_stop-Step step = search (step_rules, modify-Step) depth 24

  set_modes-Step :
      (step : Json)
      → ((b : Bool) → explicit_rearm step ≡ ok b → R b)
      → Moves (Step P R) (set_modes env config step)
  unfolding set_modes
  set_modes-Step step sound = bind-lift-Moves Step-path (explicit_rearm step) _ (λ b h.
      bind-Step _ _
        (record {
          at = λ g k. record {
            new = [];
            grown = refl;
            allowed = tt;
            still_failed = λ e. e;
            resets = sound b h;
          };
        })
        (λ _. set_stop-Step step))

-- `_publish` behind `set_modes`.
module _ {P : Output → Type 0} (env : Env) (config : Config) (step : Json)
    (idle_ok : (o : Output) → Harmless o → P o)
    (from_ok : (o : Output) → From env step o → P o) where
  commands :
      (l a : ℕ)
      → Names env step "linear" l
      → Names env step "angular" a
      → Commands config P (Reset config step) l a
  commands l a n m = record {
    plain = from_ok _ (n, m, inl tt);
    stops = λ _ _ frame. from_ok _ (n, m, inl tt);
    drives = λ frame. from_ok _ (n, m, inl tt);
    resets = λ h r frame. from_ok _ (n, m, inr (by_reset h r));
  }
    where
      by_reset :
          config.has_permits ≡ true
          → (true ≡ false) ⊎ ((config.has_permits ≡ false) ⊎ (explicit_rearm step ≡ ok true))
          → explicit_rearm step ≡ ok true
      by_reset h (inl e) = cc
      by_reset h (inr (inl e)) = cc
      by_reset h (inr (inr e)) = e

  flag_sound : (b : Bool) → explicit_rearm step ≡ ok b → Reset config step b
  flag_sound false h = inl refl
  flag_sound true h = inr (inr h)

  modes_set :
      (g h : Gate) → set_modes env config step g ≡ (ok tt, h) → Reset config step h.permit_reset
  unfolding set_modes
  modes_set g h e =
      let (rearmed, t, e1, h1) = bind-eq-ok (lift (explicit_rearm step)) _ g e in
      let (_, u, e2, h2) = bind-eq-ok (modify (λ g. record g { permit_reset = rearmed })) _ t h1 in
      let flag : u.permit_reset ≡ rearmed = ap (λ x. x.1.permit_reset) (sym e2) in
      let start = subst (Reset config step) (sym flag) (flag_sound rearmed (ap (λ x. x.0) e1)) in
      let kept : Adds P (Reset config step) u (set_stop env config step u).1 =
        (set_stop-Step env config idle_ok (inl refl) step).at u start in
      subst (λ (x : Result (Unit {0}) × Gate). Reset config step x.1.permit_reset) h2 kept.resets

  send_step-Step : Moves (Step P (Reset config step)) (send_step env config step)
  unfolding send_step
  send_step-Step = bind-Step _ _ (retiring-Step env config idle_ok (inl refl) step) (λ retiring.
      bind-Step _ _
        (when-Step (not retiring) _ (drive-Step env config idle_ok (inl refl) step commands))
        (λ _. bind-lift-Moves Step-path (fields_of step) _ (λ top e.
          bind-Step _ _
            (when-Step (truthy (find "arm" top)) _ (
              obey_arm-Step env config idle_ok (inl refl) (find "arm" top)
                (λ x t frame. from_ok _ (top, e, x))))
            (λ _.
              bind-Step _ _ (publish_status-Step env config idle_ok (inl refl) (find "status" top))
                (λ _.
                  bind-Step _ _
                    (publish_outcome-Step env config idle_ok (inl refl) (find "outcome" top))
                    (λ _. pure-Step retiring))))))

  -- Behind the flags the reset is sound.
  flags_set :
      (b : Bool) (g h : Gate)
      → config.has_permits ≡ b
      → when b (set_modes env config step) g ≡ (ok tt, h)
      → Reset config step h.permit_reset
  flags_set true g h e k = modes_set g h k
  flags_set false g h e k = inr (inl e)

  -- What an answer makes the gate send is harmless or says what the answer says.
  pub publish-Step : Moves (Step P (λ _. Unit)) (publish env config step)
  unfolding publish
  publish-Step = record {
    at = λ g.
        bind-at Step-path (when config.has_permits (set_modes env config step)) _ g
          ((when-Step config.has_permits _
              (set_modes-Step env config idle_ok tt step (λ _ _. tt))).at
            g)
          (λ _ h e _.
            any_reset h _ (send_step-Step.at h (flags_set config.has_permits g h refl e)));
  }

  -- Where it was sent whole, a reset is due only for a step that rearms.
  pub publish-Reset :
      (g h : Gate) (retiring : Bool)
      → publish env config step g ≡ (ok retiring, h)
      → Reset config step h.permit_reset
  unfolding publish
  publish-Reset g h retiring e =
      let (_, t, e1, e2) = bind-eq-ok (when config.has_permits (set_modes env config step)) _ g e in
      subst (λ (x : Result Bool × Gate). Reset config step x.1.permit_reset) e2
        (send_step-Step.at t (flags_set config.has_permits g t refl e1)).resets
