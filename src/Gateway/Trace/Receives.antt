-- ===== src/Gateway/Trace/Receives.antt =====
-- Where the outputs of `_receive` of node.py come from.
use haetae.Prelude.{
  ℕ, ◌+◌, ◌/◌, ◌≡◌, refl, sym, ap, ◌∙◌, subst, ◌⊎◌, inl, inr, arith, String, Bool, true, false, [],
  ltb, if◌then◌else◌,
}
use haetae.Prelude.Int.{ℤ, pos}
use haetae.Python.{Error, Result, ok, expired_actuation, invalid_proposal, ok-injective}
use haetae.Python.Action.{pure, ◌>>=◌, when, rescue}
use haetae.Python.Action.Moves.{Moves, if-at, bind-at, bind-lift-Moves, handle-Moves}
use haetae.Python.Double.{is_zero}
use haetae.Python.Values.{Json}
use haetae.Bridge.{require_fresh_actuation}
use haetae.Bridge.Rejection.{reject_expired_actuation-Stopped}
use haetae.Gateway.{Config, Env, Gate, Method, Output, now, monotonic, ask}
use haetae.Gateway.Receive.{
  elapsed_of, reject_request, obey, weigh, judge, open_request, exchange, reject_expired,
  lose_authority, report_malformed, recover, receive,
}
use haetae.Gateway.Trace.{
  Harmless, Step, Step-path, step_rules, modify-Step, bind-Step, pure-Step, when-Step, if-Step,
  wider, reading-Step, rescue-Step,
}
use haetae.Gateway.Trace.Stops.{cancel_arm-Step, abort-Step, publish_zero-Step, ask-Step}
use haetae.Gateway.Trace.Answers.{Renews, obey-Step}
use haetae.Gateway.Trace.Quiet.{Stopped-Harmless}
use haetae.Gateway.Trace.Steps.{From, publish-Step}

-- The callback answered with the step, and the step was fresh by the clocks that were read at `g`,
-- before the request, and behind the answer.
pub record Judged (env : Env) (config : Config) (callback : Method Json) (g : Gate) (step : Json)
    (elapsed : ℤ) : Type 0 where
  pub asked_at : Gate
  pub answered_at : Gate
  pub opened :
      (do
        started ← monotonic env
        started_ros_ms ← now env
        when config.has_permits (open_request env config started_ros_ms))
        g
      ≡ (ok tt, asked_at)
  pub answered : callback asked_at ≡ (ok step, answered_at)
  pub measured :
      elapsed
      ≡ elapsed_of
          (env.mono_ns g.ticks)
          (env.ros_ns (g.ticks + 1) / 1000000)
          (env.ros_ns answered_at.ticks / 1000000)
          (env.mono_ns (answered_at.ticks + 1))
  pub fresh :
      require_fresh_actuation step elapsed
        (pos (env.ros_ns answered_at.ticks / 1000000))
        config.world_max_age_ms
        config.max_actuation_response_ms
      ≡ ok tt

-- Why `_receive` sent an output that can move something: for a step that was fresh, which it obeys
-- or whose lease it renews; or for the engine's answer to the rejection of a malformed input.
pub data Grounds (env : Env) (config : Config) (callback : Method Json) (g : Gate) (o : Output)
    : Type 0 where
  for_fresh :
      (step : Json) (elapsed : ℤ)
      → Judged env config callback g step elapsed
      → From env step o ⊎ Renews config step elapsed o
      → Grounds env config callback g o
  for_rejection :
      (n now_ms : ℕ) (reason : String) (step : Json)
      → env.answer n (reject_request reason now_ms) ≡ ok step
      → From env step o
      → Grounds env config callback g o

abbrev pub Allowed : Env → Config → Method Json → Gate → Output → Type 0
Allowed env config callback g o = Harmless o ⊎ Grounds env config callback g o

-- Where the clock of ROS went back, the other one is not read.
later-elapsed :
    (env : Env) (started ros now_ms later : ℕ) (b : Bool) (h t : Gate)
    → b ≡ ltb now_ms ros
    → (if b then pure started else monotonic env) h ≡ (ok later, t)
    → elapsed_of started ros now_ms later ≡ elapsed_of started ros now_ms (env.mono_ns h.ticks)
later-elapsed env started ros now_ms later true h t e q = ground arith
later-elapsed env started ros now_ms later false h t e q =
    ap (elapsed_of started ros now_ms) (sym (ok-injective (ap (λ x. x.0) q)))

clock-read :
    (env : Env) (n : ℕ) (h t : Gate) → now env h ≡ (ok n, t) → env.ros_ns h.ticks / 1000000 ≡ n
clock-read env n h t e = ok-injective (ap (λ x. x.0) e)

-- The two readings behind an answer.
elapsed-read :
    (env : Env) (started ros n later : ℕ) (h t u : Gate)
    → now env h ≡ (ok n, t)
    → (if ltb n ros then pure started else monotonic env) t ≡ (ok later, u)
    → elapsed_of started ros n later
      ≡ elapsed_of started ros (env.ros_ns h.ticks / 1000000) (env.mono_ns (h.ticks + 1))
elapsed-read env started ros n later h t u e e' =
    later-elapsed env started ros n later (ltb n ros) t u refl e'
    ∙ ap (λ m. elapsed_of started ros m (env.mono_ns t.ticks)) (sym (clock-read env n h t e))
    ∙ ap (λ k. elapsed_of started ros (env.ros_ns h.ticks / 1000000) (env.mono_ns k))
        (sym (ap (λ (x : Result ℕ × Gate). x.1.ticks) e))

module _ (env : Env) (config : Config) (callback : Method Json) (g : Gate) where
  obey-Judged :
      (step : Json) (elapsed : ℤ) (started : ℕ)
      → Judged env config callback g step elapsed
      → Moves
          (Step (Allowed env config callback g) (λ _. Unit))
          (obey env config step started elapsed)
  obey-Judged step elapsed started j =
      obey-Step env config step elapsed (λ o h. inl h)
        (λ o f. inr (for_fresh step elapsed j (inl f)))
        (λ o r. inr (for_fresh step elapsed j (inr r))) started

  judge-Step :
      (step : Json) (asked_at h : Gate)
      → (do
        started ← monotonic env
        started_ros_ms ← now env
        when config.has_permits (open_request env config started_ros_ms))
          g
        ≡ (ok tt, asked_at)
      → callback asked_at ≡ (ok step, h)
      → Step
          (Allowed env config callback g)
          (λ _. Unit)
          h
          (judge env config (env.mono_ns g.ticks) (env.ros_ns (g.ticks + 1) / 1000000) step h).1
  unfolding judge weigh
  judge-Step step asked_at h o a =
      bind-at Step-path (now env) _ h ((reading-Step (λ n. env.ros_ns n / 1000000)).at h)
        (λ now_ros_ms t e.
          bind-at Step-path _ _ t ((if-Step _ _ _ (pure-Step _) (reading-Step env.mono_ns)).at t)
            (λ later u e'.
              (bind-lift-Moves Step-path _ _ (λ x fresh. obey-Judged step _ _ (record {
                asked_at = asked_at;
                answered_at = h;
                opened = o;
                answered = a;
                measured = elapsed-read env _ _ now_ros_ms later h t u e e';
                fresh =
                    subst
                      (λ n.
                        require_fresh_actuation step
                          (elapsed_of (env.mono_ns g.ticks) (env.ros_ns (g.ticks + 1) / 1000000)
                            now_ros_ms later)
                          (pos n) config.world_max_age_ms config.max_actuation_response_ms
                        ≡ ok tt)
                      (sym (clock-read env now_ros_ms h t e)) fresh;
              }))).at
                u))

  open_request-Step :
      (ms : ℕ)
      → Moves (Step (Allowed env config callback g) (λ _. Unit)) (open_request env config ms)
  unfolding open_request
  open_request-Step ms = search (step_rules, modify-Step) depth 16

  pub exchange-Step :
      Moves (Step Harmless (λ _. Unit)) callback
      → Step (Allowed env config callback g) (λ _. Unit) g (exchange env config callback g).1
  unfolding exchange ◌>>=◌
  exchange-Step quiet =
      let h = record g { ticks = g.ticks + 1 + 1 } in
      Step-path.join g h _
        (λ k. record { new = []; grown = refl; allowed = tt; still_failed = λ e. e; resets = tt })
        (bind-at Step-path
          (when config.has_permits (open_request env config (env.ros_ns (g.ticks + 1) / 1000000))) _
          h ((when-Step _ _ (open_request-Step _)).at h)
          (λ _ asked_at o.
            bind-at Step-path callback _ asked_at
              (λ k. wider asked_at _ (λ o h. inl h) (quiet.at asked_at k))
              (λ step t a. judge-Step step asked_at t o a)))

  reject_expired-Step :
      (e : Error)
      → ((bits : ℕ) → env.to_double (pos 0) ≡ ok bits → is_zero bits ≡ true)
      → Moves (Step (Allowed env config callback g) (λ _. Unit)) (reject_expired env config e)
  unfolding reject_expired
  reject_expired-Step e zero = bind-Step _ _ (cancel_arm-Step env config (λ o h. inl h) tt) (λ _.
      bind-Step _ _ (reading-Step _) (λ now_ms.
        bind-Step _ _ (ask-Step env config (λ o h. inl h) tt _) (λ step.
          bind-lift-Moves Step-path _ _ (λ accepted h.
            let stopped =
              reject_expired_actuation-Stopped (λ _. ok step) (env.message e) (pos now_ms) accepted
                h in
            bind-Step _ _
              (publish-Step env config accepted (λ o h. inl h)
                (λ o f. inl (Stopped-Harmless env accepted stopped zero o f)))
              (λ _. pure-Step tt)))))

  report_malformed-Step :
      (e : Error)
      → Moves (Step (Allowed env config callback g) (λ _. Unit)) (report_malformed env config e)
  unfolding report_malformed
  report_malformed-Step e = bind-Step _ _ (reading-Step _) (λ now_ms. record {
    at = λ h.
        bind-at Step-path (ask env (reject_request (env.message e) now_ms)) _ h
          ((ask-Step env config (λ o h. inl h) tt _).at h)
          (λ step t a.
            (bind-Step _ _
                (publish-Step env config step (λ o h. inl h)
                  (λ o f.
                    inr (for_rejection h.ticks now_ms (env.message e) step (ap (λ x. x.0) a) f)))
                (λ _. pure-Step tt)).at
              t);
  })

  recover-Step :
      (e : Error)
      → ((bits : ℕ) → env.to_double (pos 0) ≡ ok bits → is_zero bits ≡ true)
      → Moves (Step (Allowed env config callback g) (λ _. Unit)) (recover env config e)
  unfolding lose_authority
  recover-Step expired_actuation zero =
      bind-Step _ _ (publish_zero-Step env config (λ o h. inl h) tt) (λ _.
        rescue-Step _ _ (reject_expired-Step expired_actuation zero)
          (abort-Step env config (λ o h. inl h) tt))
  recover-Step invalid_proposal zero =
      rescue-Step _ _ (report_malformed-Step invalid_proposal)
        (abort-Step env config (λ o h. inl h) tt)
  recover-Step e zero = abort-Step env config (λ o h. inl h) tt e

  -- Whatever a request makes the gate send is harmless, or has its grounds in an answer.
  pub receive-Step :
      Moves (Step Harmless (λ _. Unit)) callback
      → ((bits : ℕ) → env.to_double (pos 0) ≡ ok bits → is_zero bits ≡ true)
      → Step (Allowed env config callback g) (λ _. Unit) g (receive env config callback g).1
  unfolding receive ◌>>=◌ rescue
  receive-Step quiet zero =
      if-at Step-path g.failed _ _ g (λ _. (pure-Step tt).at g)
        (λ _.
          handle-Moves Step-path (recover env config) g (exchange env config callback g)
            (exchange-Step quiet) (λ e. recover-Step e zero))
