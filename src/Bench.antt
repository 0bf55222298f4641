-- ===== src/Bench.antt =====
-- `BenchGate` of tools/bench_gate.py: one cycle of the LED bench asks the engine for a decision on
-- a fresh world and a motion, with a fault put in where one is asked for, and keeps the approval of
-- a positive answer. The clocks and the answers come from a tape, as for the ROS node; the
-- diagnostics of a cycle are left out.
pub mod Answers
pub mod Approved
use haetae.Prelude.{
  ℕ, ◌+◌, ◌*◌, ◌-◌, Bool, true, false, not, ◌&&◌, ◌||◌, Option, none, some, List, [], ◌∷◌,
  if◌then◌else◌,
}
use haetae.Prelude.Int.{ℤ, pos, ◌-ℤ◌}
use haetae.Python.{Result, ok, err, bridge_failure}
use haetae.Python.Action.{Action, pure, lift, gets, ◌>>=◌, ◌>>◌, modify, when}
use haetae.Python.Values.{Json}
use haetae.Bridge.{require_fresh_actuation, lease_renewable}
use haetae.Signing.{Role, Signer, Envelope, world as world_role, vla, sign}
use Answers.{is_refused, is_positive}

pub data Fault : Type 0 where
  no_fault person world_loss replay invalid_signature : Fault

-- The input of `world`: the robot stands, and there is a person beside it or none.
pub record World : Type 0 where
  pub stamp_ms : ℕ
  pub has_person : Bool

-- The input of `motion`: a stop, or a quarter of a metre per second for 200 ms.
pub record Motion : Type 0 where
  pub id : ℕ
  pub timestamp_ms : ℕ
  pub stops : Bool

pub record Env : Type 0 where
  pub mono_ns : ℕ → ℕ
  pub now_ms : ℕ → ℕ
  pub answer : ℕ → ℕ → Option Envelope → Result Json
  pub key_sign : Role → List ℕ → List ℕ
  pub world_text : World → List ℕ
  pub motion_text : Motion → List ℕ

pub data Verdict : Type 0 where
  incomplete denied approved : Verdict

pub record BenchGate : Type 0 where
  pub ticks : ℕ
  pub signer : Signer
  pub proposal : ℕ
  pub last_motion : Option Envelope
  pub approval : Option (Json × ℕ)
  pub last_cycle : Verdict

abbrev pub Method : Type 0 → Type 0
Method = Action BenchGate

abbrev pub reading : {A : Type 0} → (ℕ → A) → Method A
reading tape b = (ok (tape b.ticks), record b { ticks = b.ticks + 1 })

-- 64 zero bytes.
abbrev zeros : ℕ → List ℕ
zeros ℕ.zero = []
zeros (ℕ.suc n) = 0 ∷ zeros n

abbrev pub is_world_fault : Fault → Bool
is_world_fault person = true
is_world_fault world_loss = true
is_world_fault _ = false

abbrev pub is_world_loss : Fault → Bool
is_world_loss world_loss = true
is_world_loss _ = false

abbrev pub is_person : Fault → Bool
is_person person = true
is_person _ = false

module _ (env : Env) where
  -- The signer's envelope; its counter is kept.
  unfoldable pub signed_by : Role → List ℕ → Method Envelope
  unfolding sign
  signed_by role payload = do
    b ← gets (λ b. b)
    (envelope, signer) ← lift (sign env.key_sign role payload b.signer)
    modify (λ b. record b { signer = signer })
    pure envelope

  -- `signed`: the request with its clock; without a last motion it sends null.
  unfoldable pub signed : Option Envelope → Method Json
  signed envelope = do
    request_ms ← reading env.now_ms
    answer ← reading (λ n. env.answer n request_ms envelope)
    lift answer

  unfoldable pub world : Bool → Method Json
  unfolding signed_by signed
  world has_person = do
    stamp_ms ← reading env.now_ms
    envelope ←
        signed_by world_role
          (env.world_text (record { stamp_ms = stamp_ms; has_person = has_person }))
    signed (some envelope)

  unfoldable pub motion : Bool → Method Json
  unfolding signed_by signed
  motion stops = do
    id ← gets (λ b. b.proposal + 1)
    modify (λ b. record b { proposal = id })
    now ← reading env.now_ms
    envelope ←
        signed_by vla (env.motion_text (record { id = id; timestamp_ms = now; stops = stops }))
    when (not stops) (modify (λ b. record b { last_motion = some envelope }))
    signed (some envelope)

  module _ (on_fault : Fault → Method (Unit {0})) where
    -- Whether the world was refused; without a world nothing refuses it.
    unfoldable pub world_refused : Fault → Method Bool
    unfolding world is_refused
    world_refused fault = do
      when (is_world_fault fault) (on_fault fault)
      if is_world_loss fault
          then pure false
          else do step ← world (is_person fault); lift (is_refused step)

    unfoldable pub forged : Method Json
    unfolding signed_by signed
    forged = do
      now ← reading env.now_ms
      envelope ←
          signed_by vla (env.motion_text (record { id = 999; timestamp_ms = now; stops = false }))
      on_fault invalid_signature
      signed (some (record envelope { signature = zeros 64 }))

    -- The answer to the motion.
    unfoldable pub moved : Fault → Method Json
    unfolding signed forged motion
    moved replay = do on_fault replay; envelope ← gets (λ b. b.last_motion); signed envelope
    moved invalid_signature = forged
    moved _ = motion false

    -- The verdict on a step, with the time since the cycle began.
    unfoldable pub grant : ℕ → ℤ → Json → Method Bool
    unfolding is_positive lease_renewable
    grant started elapsed step = do
      positive ← lift (is_positive step)
      renewable ←
          if positive then lift (lease_renewable step elapsed (pos 200) (pos 50)) else pure false
      modify (λ b.
          if renewable
          then record b { approval = some (step, started); last_cycle = approved }
          else record b { last_cycle = denied })
      pure renewable

    unfoldable pub weigh_step : ℕ → Json → Method Bool
    unfolding require_fresh_actuation grant
    weigh_step started step = do
      ended ← reading env.mono_ns
      let elapsed = pos ended -ℤ pos started
      now ← reading env.now_ms
      lift (require_fresh_actuation step elapsed (pos now) (pos 200) (pos 50))
      grant started elapsed step

    unfoldable pub run_cycle : ℕ → Fault → Method Bool
    unfolding world_refused moved weigh_step
    run_cycle started fault = do
      refused ← world_refused fault
      if refused
          then modify (λ b. record b { last_cycle = denied }) >> pure false
          else do step ← moved fault; weigh_step started step

    unfoldable pub cycle : Fault → Method Bool
    unfolding run_cycle
    cycle fault = do
      started ← reading env.mono_ns
      modify (λ b. record b { approval = none; last_cycle = incomplete })
      run_cycle started fault

  -- The time that is left, in nanoseconds.
  unfoldable pub left_of : Option (Json × ℕ) → Method ℤ
  unfolding require_fresh_actuation
  left_of none = lift (err bridge_failure)
  left_of (some (step, started)) = do
    ended ← reading env.mono_ns
    now ← reading env.now_ms
    let elapsed = pos ended -ℤ pos started
    lift (require_fresh_actuation step elapsed (pos now) (pos 200) (pos 50))
    pure (pos 50000000 -ℤ elapsed)

  unfoldable pub remaining : Method ℤ
  unfolding left_of
  remaining = gets (λ b. b.approval) >>= left_of
