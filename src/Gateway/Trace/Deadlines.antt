-- ===== src/Gateway/Trace/Deadlines.antt =====
-- The end of the authority: a gate that failed moves nothing more, and a tick fails a gate whose
-- arm controller did not answer in time.
use haetae.Prelude.{
  ℕ, ◌≡◌, refl, sym, ap, ◌∙◌, subst, ◌⊎◌, inl, inr, ◌≤◌, arith, Bool, true, false, not, Option,
  none, some, List, [], ◌∷◌, ◌+◌, ◌/◌, leb, if◌then◌else◌,
}
use haetae.Python.{Error, Result, ok, err, bridge_failure, err-injective}
use haetae.Python.Action.{pure, gets, ◌>>=◌, ◌>>◌, when, raise_unless, rescue, after, handle}
use haetae.Python.Action.Moves.{bind-at}
use haetae.Python.Values.{Json}
use haetae.Gateway.{Config, Env, Gate, Method, Output}
use haetae.Gateway.Stop.{abort}
use haetae.Gateway.Receive.{receive, exchange, open_request, recover}
use haetae.Gateway.Inputs.{
  await_deadline, check_deadline, from_tick, Event, world_message, fault_message, signed_message,
  base_message, arm_message, tick, guard_state, vla_matched, arm_goal_done, arm_result_done,
  arm_cancel_done, abort_timer, count_vla, next_event, dispatch, spin,
}
use haetae.Gateway.Trace.{Harmless, Adds, Step-path}
use haetae.Gateway.Trace.Stops.{shut_down-Step, abort_tick-Step}
use haetae.Gateway.Trace.Steps.{on_arm_goal-Step, on_arm_result-Step, on_arm_cancel-Step}
use haetae.Gateway.Trace.Runs.{hear-Step, count_vla-Step, writers-Step}

module _ (env : Env) (config : Config) where
  failed_receive :
      (callback : Method Json) (g : Gate) → g.failed ≡ true → (receive env config callback g).1 ≡ g
  unfolding receive ◌>>=◌
  failed_receive callback g f = rw f refl

  closed :
      (callback : Method Json) (g : Gate)
      → g.failed ≡ true
      → Adds Harmless (λ _. Unit) g (receive env config callback g).1
  closed callback g f =
      subst (Adds Harmless (λ _. Unit) g) (sym (failed_receive callback g f)) (Step-path.stay g tt)

  failed_dispatch :
      (e : Event) (g : Gate)
      → g.failed ≡ true
      → Adds Harmless (λ _. Unit) g (dispatch env config e g).1
  unfolding dispatch
  failed_dispatch (world_message payload) g f = closed _ g f
  failed_dispatch (fault_message payload) g f = closed _ g f
  failed_dispatch (signed_message role text) g f =
      bind-at Step-path (count_vla role) _ g ((count_vla-Step env config role).at g)
        (λ _ h e _. closed _ h (
          sym (ap (λ (x : Result (Unit {0}) × Gate). x.1.failed) e)
          ∙ ((count_vla-Step env config role).at g tt).still_failed f))
        tt
  failed_dispatch (base_message role ttl msg) g f = closed _ g f
  failed_dispatch (arm_message role msg) g f = closed _ g f
  failed_dispatch (tick fault_text) g f = closed _ g f
  failed_dispatch (guard_state target parsed) g f = (hear-Step env config target parsed).at g tt
  failed_dispatch (vla_matched count) g f = (writers-Step env config count).at g tt
  failed_dispatch (arm_goal_done future) g f =
      (on_arm_goal-Step env config (λ o h. h) tt future).at g tt
  failed_dispatch (arm_result_done future) g f =
      (on_arm_result-Step env config (λ o h. h) tt future).at g tt
  failed_dispatch (arm_cancel_done future) g f =
      (on_arm_cancel-Step env config (λ o h. h) tt future).at g tt
  failed_dispatch abort_timer g f = (abort_tick-Step env config (λ o h. h) tt).at g tt

  then_failed :
      (rest : List Event) (g : Gate) (end' : Result (Unit {0}) × Gate)
      → g.failed ≡ true
      → Adds Harmless (λ _. Unit) g end'.1
      → ((h : Gate) → h.failed ≡ true → Adds Harmless (λ _. Unit) h (spin env config rest h))
      → Adds Harmless (λ _. Unit) g (next_event (spin env config rest) end')
  then_failed rest g (ok u, h) f a others =
      Step-path.join g h _ (λ _. a) (λ _. others h (a.still_failed f)) tt
  then_failed rest g (err x, h) f a others = a

  -- Whatever events reach a gate that failed, it stays failed, and all that it sends is harmless:
  -- zero commands that reset nothing, revocations, cancellations and reports; no velocity, goal or
  -- lease.
  pub failed-Harmless :
      (events : List Event) (g : Gate)
      → g.failed ≡ true
      → Adds Harmless (λ _. Unit) g (spin env config events g)
  unfolding spin
  failed-Harmless [] g f = Step-path.stay g tt
  failed-Harmless (e ∷ rest) g f =
      then_failed rest g _ f (failed_dispatch e g f) (failed-Harmless rest)

  unless_failed :
      (b : Bool) (call : Method (Unit {0})) (g : Gate)
      → (b ≡ true → g.failed ≡ true)
      → (call g).1.failed ≡ true
      → ((if b then pure tt else call) g).1.failed ≡ true
  unless_failed true call g f m = f refl
  unless_failed false call g f m = m

  abort-failed : (e : Error) (g : Gate) → (abort env config e g).1.failed ≡ true
  unfolding abort ◌>>=◌
  abort-failed e g =
      unless_failed g.failed _ g (λ h. h)
        (((shut_down-Step {Reset = λ _. Unit} env config (λ (o : Output) (q : Harmless o). q) tt
              e).at
            (record g { failed = true }) tt).still_failed
          refl)

  -- A deadline that is set and that all readings from here on have reached.
  record Overdue (d : ℕ) (g : Gate) : Type 0 where
    set' : (g.goal_deadline ≡ some d) ⊎ (g.cancel_deadline ≡ some d)
    reached : (n : ℕ) → g.ticks ≤ n → d ≤ env.mono_ns n

  on_time :
      (b : Bool) (g : Gate)
      → b ≡ true
      → (raise_unless (not b) bridge_failure g).0 ≡ err bridge_failure
  on_time b g h = rw h refl

  await-err :
      (d : ℕ) (g : Gate)
      → d ≤ env.mono_ns g.ticks
      → (await_deadline env config (some d) g).0 ≡ err bridge_failure
  unfolding ◌>>=◌
  await-err d g h = on_time (leb d (env.mono_ns g.ticks)) _ (ground arith)

  -- The other deadline is not in the way.
  past_other :
      (b : Bool) (rest : Method Json) (g : Gate)
      → (rest g).0 ≡ err bridge_failure
      → ((raise_unless b bridge_failure >> rest) g).0 ≡ err bridge_failure
  unfolding ◌>>=◌
  past_other true rest g h = h
  past_other false rest g h = refl

  past_await :
      (o : Option ℕ) (rest : Method Json) (g : Gate)
      → ((h : Gate)
          → h.cancel_deadline ≡ g.cancel_deadline
          → g.ticks ≤ h.ticks
          → (rest h).0 ≡ err bridge_failure)
      → ((await_deadline env config o >> rest) g).0 ≡ err bridge_failure
  unfolding ◌>>=◌
  past_await none rest g k = k g refl (omega arith)
  past_await (some t) rest g k =
      past_other (not (leb t (env.mono_ns g.ticks))) rest _ (k _ refl (omega arith))

  first-err :
      {A B : Type 0} (call : Method A) (rest : A → Method B) (g : Gate) (e : Error)
      → (call g).0 ≡ err e
      → ((call >>= rest) g).0 ≡ err e
  unfolding ◌>>=◌
  first-err {A} call rest g e h = go (call g) h
    where
      go : (end' : Result A × Gate) → end'.0 ≡ err e → (after rest end').0 ≡ err e
      go (ok a, t) k = cc
      go (err x, t) k = ap err (err-injective k)

  tick-Overdue :
      (fault_text : ℕ → List ℕ) (d : ℕ) (g : Gate)
      → Overdue d g
      → (from_tick env config fault_text g).0 ≡ err bridge_failure
  unfolding from_tick check_deadline ◌>>=◌
  tick-Overdue fault_text d g o = elim o.set' [
    | inl h ↦
        first-err (gets (λ g. g.goal_deadline) >>= await_deadline env config) _ g bridge_failure (
          ap (λ o. (await_deadline env config o g).0) h
          ∙ await-err d g (o.reached g.ticks (omega arith)))
    | inr h ↦ past_await g.goal_deadline _ g (λ t c n.
        first-err (gets (λ g. g.cancel_deadline) >>= await_deadline env config) _ t bridge_failure (
          ap (λ o. (await_deadline env config o t).0) (c ∙ h)
          ∙ await-err d t (o.reached t.ticks n)))
  ]

  past_open :
      (b : Bool) (ms : ℕ) (rest : Method (Unit {0})) (d : ℕ) (g : Gate)
      → Overdue d g
      → ((h : Gate) → Overdue d h → (rest h).0 ≡ err bridge_failure)
      → ((when b (open_request env config ms) >> rest) g).0 ≡ err bridge_failure
  unfolding open_request ◌>>=◌
  past_open true ms rest d g o k =
      k _ (record { set' = o.set'; reached = λ n l. o.reached n (omega arith) })
  past_open false ms rest d g o k = k g o

  exchange-Overdue :
      (fault_text : ℕ → List ℕ) (d : ℕ) (g : Gate)
      → Overdue d g
      → (exchange env config (from_tick env config fault_text) g).0 ≡ err bridge_failure
  unfolding exchange ◌>>=◌
  exchange-Overdue fault_text d g o =
      past_open config.has_permits (env.ros_ns (g.ticks + 1) / 1000000) _ d
        (record g { ticks = g.ticks + 1 + 1 })
        (record { set' = o.set'; reached = λ n l. o.reached n (omega arith) })
        (λ h o'.
          first-err (from_tick env config fault_text) _ h bridge_failure
            (tick-Overdue fault_text d h o'))

  recovered :
      (end' : Result (Unit {0}) × Gate)
      → end'.0 ≡ err bridge_failure
      → (handle (recover env config) end').1.failed ≡ true
  recovered (ok u, g) h = cc
  recovered (err bridge_failure, g) h = abort-failed bridge_failure g
  recovered (err e, g) h = cc

  -- A tick leaves the gate failed where the deadline of a goal's acceptance or of a cancellation is
  -- set and every later reading of the monotonic clock has reached it.
  pub tick-failed :
      (fault_text : ℕ → List ℕ) (g : Gate) (d : ℕ)
      → (g.goal_deadline ≡ some d) ⊎ (g.cancel_deadline ≡ some d)
      → ((n : ℕ) → g.ticks ≤ n → d ≤ env.mono_ns n)
      → (dispatch env config (tick fault_text) g).1.failed ≡ true
  unfolding dispatch receive rescue ◌>>=◌
  tick-failed fault_text g d s r =
      unless_failed g.failed _ g (λ h. h)
        (recovered (exchange env config (from_tick env config fault_text) g)
          (exchange-Overdue fault_text d g (record { set' = s; reached = r })))
