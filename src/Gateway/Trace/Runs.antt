-- ===== src/Gateway/Trace/Runs.antt =====
-- What a run of the node sends (the callbacks of node.py, in any order).
use haetae.Prelude.{
  ℕ, ◌≡◌, refl, ap, ◌∙◌, ◌⊎◌, inl, inr, String, true, Option, none, some, List, [], ◌∷◌, ◌++◌,
}
use haetae.Prelude.Int.{pos}
use haetae.Python.{Result, ok, err}
use haetae.Python.Action.{◌>>=◌, modify}
use haetae.Python.Action.Moves.{Moves, bind-at}
use haetae.Python.Double.{is_zero}
use haetae.Python.Values.{Json}
use haetae.Permits.Digest.{Command, Trajectory}
use haetae.Permits.Signer.{Target}
use haetae.Proposals.{Action as Proposed}
use haetae.Signing.{Role, world, fault, vla}
use haetae.Gateway.{Config, Env, Gate, Method, Output}
use haetae.Gateway.Receive.{receive}
use haetae.Gateway.Inputs.{
  ask_signed, send, proposal, from_base, from_arm, from_signed, await_deadline, check_deadline,
  plain_request, from_tick, hear, Event, world_message, fault_message, signed_message, base_message,
  arm_message, tick, guard_state, vla_matched, arm_goal_done, arm_result_done, arm_cancel_done,
  abort_timer, count_vla, count_or_zero, next_event, dispatch, spin,
}
use haetae.Gateway.Trace.{
  Harmless, Step, Adds, Step-path, step_rules, modify-Step, pure-Step, wider,
}
use haetae.Gateway.Trace.Stops.{ask-Step, abort_tick-Step}
use haetae.Gateway.Trace.Steps.{on_arm_goal-Step, on_arm_result-Step, on_arm_cancel-Step}
use haetae.Gateway.Trace.Receives.{Grounds, receive-Step}

-- The request of an event, and the gate where `_receive` takes it up.
abbrev pub opens : Env → Config → Event → Gate → Option (Method Json × Gate)
opens env config (world_message payload) g = some (send env config world payload, g)
opens env config (fault_message payload) g = some (send env config fault payload, g)
opens env config (signed_message role text) g =
    some (from_signed env config role text, (count_vla role g).1)
opens env config (base_message role ttl msg) g = some (from_base env config role ttl msg, g)
opens env config (arm_message role msg) g = some (from_arm env config role msg, g)
opens env config (tick fault_text) g = some (from_tick env config fault_text, g)
opens env config _ g = none

-- What the event sends: nothing moves on it, or it has its grounds in the answer to its request.
abbrev pub Sent : Env → Config → Event → Gate → Output → Type 0
Sent env config e g o =
    Harmless o
    ⊎ ((callback : Method Json) × (h : Gate) × (opens env config e g ≡ some (callback, h))
        × Grounds env config callback h o)

-- The requests themselves only ask.
module _ (env : Env) (config : Config) where
  abbrev pub Quiet : {A : Type 0} → Method A → Type 0
  Quiet call = Moves (Step Harmless (λ _. Unit)) call

  asks-Step : (request : Json) → Quiet (haetae.Gateway.ask env request)
  asks-Step request = ask-Step env config (λ o h. h) tt request

  send-Step : (role : Role) (payload : List ℕ) → Quiet (send env config role payload)
  unfolding send ask_signed
  send-Step role payload = search (step_rules, modify-Step, asks-Step) depth 30

  proposal-Step : (role : Role) (action : Proposed) → Quiet (proposal env config role action)
  unfolding proposal
  proposal-Step role action = search (step_rules, modify-Step, send-Step) depth 24

  ask_signed-Step : (text : String) → Quiet (ask_signed env config text)
  unfolding ask_signed
  ask_signed-Step text = search (step_rules, asks-Step) depth 16

  await_deadline-Step : (d : Option ℕ) → Quiet (await_deadline env config d)
  await_deadline-Step none = pure-Step tt
  await_deadline-Step (some d) = search step_rules depth 16

  check_deadline-Step : (deadline : Gate → Option ℕ) → Quiet (check_deadline env config deadline)
  unfolding check_deadline
  check_deadline-Step deadline = search (step_rules, await_deadline-Step) depth 16

  plain_request-Step : (kind : String) → Quiet (plain_request env config kind)
  unfolding plain_request
  plain_request-Step kind = search (step_rules, asks-Step) depth 16

  from_base-Step :
      (role : Role) (ttl : ℕ) (msg : Command) → Quiet (from_base env config role ttl msg)
  unfolding from_base
  from_base-Step role ttl msg = search (step_rules, proposal-Step) depth 16

  from_arm-Step : (role : Role) (msg : Trajectory) → Quiet (from_arm env config role msg)
  unfolding from_arm
  from_arm-Step role msg = search (step_rules, proposal-Step) depth 16

  from_signed-Step : (role : Role) (text : String) → Quiet (from_signed env config role text)
  unfolding from_signed
  from_signed-Step role text = search (step_rules, ask_signed-Step) depth 16

  from_tick-Step : (fault_text : ℕ → List ℕ) → Quiet (from_tick env config fault_text)
  unfolding from_tick
  from_tick-Step fault_text =
      search (step_rules, check_deadline-Step, plain_request-Step, send-Step) depth 30

  pub hear-Step : (target : Target) (parsed : Result Json) → Quiet (hear env config target parsed)
  unfolding hear
  hear-Step target parsed = search (step_rules, modify-Step) depth 24

  pub count_vla-Step : (role : Role) → Quiet (count_vla role)
  count_vla-Step vla = modify-Step _ (λ _. refl) (λ _. refl) (λ _. refl)
  count_vla-Step _ = pure-Step tt

  pub writers-Step :
      (count : Option ℕ) → Quiet (modify (λ g. record g { vla_writers = count_or_zero count }))
  writers-Step count =
      modify-Step (λ g. record g { vla_writers = count_or_zero count }) (λ _. refl) (λ _. refl)
        (λ _. refl)

  opened :
      (e : Event) (g : Gate) (callback : Method Json) (h : Gate)
      → Quiet callback
      → opens env config e g ≡ some (callback, h)
      → ((bits : ℕ) → env.to_double (pos 0) ≡ ok bits → is_zero bits ≡ true)
      → Step (Sent env config e g) (λ _. Unit) h (receive env config callback h).1
  opened e g callback h quiet o zero' k =
      wider h _ (widen o) (receive-Step env config callback h quiet zero' k)
    where
      widen :
          opens env config e g ≡ some (callback, h)
          → (x : Output) → Harmless x ⊎ Grounds env config callback h x
          → Sent env config e g x
      widen o' x (inl q) = inl q
      widen o' x (inr q) = inr (callback, h, o', q)

  still_event :
      (e : Event) (g : Gate) {call : Method (Unit {0})}
      → Quiet call
      → Step (Sent env config e g) (λ _. Unit) g (call g).1
  still_event e g quiet k = wider g _ (λ o h. inl h) (quiet.at g k)

  -- Whatever an event makes the gate send is harmless, or has its grounds in the answer to the
  -- event's own request.
  pub dispatch-Sent :
      (e : Event) (g : Gate)
      → ((bits : ℕ) → env.to_double (pos 0) ≡ ok bits → is_zero bits ≡ true)
      → Step (Sent env config e g) (λ _. Unit) g (dispatch env config e g).1
  unfolding dispatch ◌>>=◌
  dispatch-Sent (world_message payload) g zero' =
      opened (world_message payload) g _ g (send-Step world payload) refl zero'
  dispatch-Sent (fault_message payload) g zero' =
      opened (fault_message payload) g _ g (send-Step fault payload) refl zero'
  dispatch-Sent (signed_message role text) g zero' =
      bind-at Step-path (count_vla role) _ g
        (still_event (signed_message role text) g (count_vla-Step role))
        (λ _ h e.
          opened (signed_message role text) g _ h (from_signed-Step role text)
            (ap (λ (x : Result (Unit {0}) × Gate). some (from_signed env config role text, x.1)) e)
            zero')
  dispatch-Sent (base_message role ttl msg) g zero' =
      opened (base_message role ttl msg) g _ g (from_base-Step role ttl msg) refl zero'
  dispatch-Sent (arm_message role msg) g zero' =
      opened (arm_message role msg) g _ g (from_arm-Step role msg) refl zero'
  dispatch-Sent (tick fault_text) g zero' =
      opened (tick fault_text) g _ g (from_tick-Step fault_text) refl zero'
  dispatch-Sent (guard_state target parsed) g zero' =
      still_event (guard_state target parsed) g (hear-Step target parsed)
  dispatch-Sent (vla_matched count) g zero' = still_event (vla_matched count) g (writers-Step count)
  dispatch-Sent (arm_goal_done future) g zero' =
      still_event (arm_goal_done future) g (on_arm_goal-Step env config (λ o h. h) tt future)
  dispatch-Sent (arm_result_done future) g zero' =
      still_event (arm_result_done future) g (on_arm_result-Step env config (λ o h. h) tt future)
  dispatch-Sent (arm_cancel_done future) g zero' =
      still_event (arm_cancel_done future) g (on_arm_cancel-Step env config (λ o h. h) tt future)
  dispatch-Sent abort_timer g zero' =
      still_event abort_timer g (abort_tick-Step env config (λ o h. h) tt)

-- The run before an event that is dispatched, the event, and the outputs it may send.
abbrev pub Justified : Env → Config → List Event → Gate → Output → Type 0
Justified env config events g o =
    Harmless o
    ⊎ ((before after : List Event) × (e : Event) × (callback : Method Json) × (h : Gate) × (events
          ≡ before ++ e ∷ after)
        × (opens env config e (spin env config before g) ≡ some (callback, h))
        × Grounds env config callback h o)

module _ (env : Env) (config : Config)
    (zero' : (bits : ℕ) → env.to_double (pos 0) ≡ ok bits → is_zero bits ≡ true) where
  first :
      (e : Event) (rest : List Event) (g : Gate) (o : Output)
      → Sent env config e g o
      → Justified env config (e ∷ rest) g o
  unfolding spin
  first e rest g o (inl h) = inl h
  first e rest g o (inr (callback, h, s, k)) = inr ([], rest, e, callback, h, refl, s, k)

  later :
      (e : Event) (rest : List Event) (g h : Gate)
      → dispatch env config e g ≡ (ok tt, h)
      → (o : Output) → Justified env config rest h o
      → Justified env config (e ∷ rest) g o
  unfolding spin
  later e rest g h d o (inl q) = inl q
  later e rest g h d o (inr (before, after, e', callback, t, s, p, k)) = inr (
    e ∷ before,
    after,
    e',
    callback,
    t,
    ap (λ l. e ∷ l) s,
    ap (λ t. opens env config e' (next_event (spin env config before) t)) d ∙ p,
    k,
  )

  continued :
      (e : Event) (rest : List Event) (g : Gate) (end' : Result (Unit {0}) × Gate)
      → dispatch env config e g ≡ end'
      → Adds (Sent env config e g) (λ _. Unit) g end'.1
      → ((h : Gate) → Adds (Justified env config rest h) (λ _. Unit) h (spin env config rest h))
      → Adds
          (Justified env config (e ∷ rest) g)
          (λ _. Unit)
          g
          (next_event (spin env config rest) end')
  continued e rest g (ok u, h) d a others =
      Step-path.join g h _ (λ _. wider g h (first e rest g) a)
        (λ _. wider h _ (later e rest g h d) (others h)) tt
  continued e rest g (err x, h) d a others = wider g h (first e rest g) a

  -- Where the float of the int 0 is a zero, and whatever events the node handles: each output is
  -- harmless (a zero command that resets nothing, a revocation, a cancellation, a question, a
  -- report), or one event of the run has grounds for it. Either the engine answered the event's
  -- request with a step that was fresh by the clocks read around that request, and the output is
  -- the step's velocity, a goal where the step has a plan to execute, the lease of a renewable
  -- step, or a reset where the step also rearms; or the output is what the engine answered to the
  -- rejection of a malformed input. A gate that failed stays so.
  pub spin-Justified :
      (events : List Event) (g : Gate)
      → Adds (Justified env config events g) (λ _. Unit) g (spin env config events g)
  unfolding spin
  spin-Justified [] g = Step-path.stay g tt
  spin-Justified (e ∷ rest) g =
      continued e rest g _ refl (dispatch-Sent env config e g zero' tt) (spin-Justified rest)
