-- ===== src/Led/Authorizer.antt =====
-- `Authorizer` of tools/permit_authorizer.py. What a call of `approve` finds around it (the clock,
-- the gate, the new key) is a record; the cryptography is another. Times are in nanoseconds.
pub mod Grants
pub mod History
use haetae.Prelude.{
  ℕ, ◌+◌, ◌-◌, Bool, true, false, not, ◌&&◌, ◌||◌, Option, none, some, List, [], ◌∷◌, ltb, leb,
  ◌==◌, bytes_eq, if◌then◌else◌,
}
use haetae.Prelude.Int.{ℤ, pos, negsuc}
use haetae.Python.{Result, ok, err, value_error, type_error, is_value_error, is_runtime_error}
use haetae.Python.Values.{Json}
use haetae.Led.Protocol.{
  Op, Request, bind, arm, run, context, decode_json, from_hex, payload, bind_payload,
}

pub data Scenario : Type 0 where
  allow person world_loss replay invalid_signature : Scenario

-- What `__init__` is given.
pub record Config : Type 0 where
  pub install : List ℕ
  pub controller_public : List ℕ
  pub scenario : Scenario
  pub seconds : ℕ

pub record Authorizer : Type 0 where
  pub started : Option ℕ
  pub binding : Option (ℕ × ℕ)
  pub sequence : ℕ
  pub challenge : ℕ
  pub locked : Bool
  pub session_key : Option (List ℕ)
  pub armed_authorized : Bool

abbrev pub init : Authorizer
init = record {
  started = none;
  binding = none;
  sequence = 0;
  challenge = 0;
  locked = false;
  session_key = none;
  armed_authorized = false;
}

-- Ed25519, X25519 and BLAKE2b: the public text of a new key, the exchange, which refuses some
-- points, the keyed digest as bytes and as text, and the authorizer's signature as text.
pub record Crypto : Type 0 where
  pub public_text : List ℕ → List ℕ
  pub agree : List ℕ → List ℕ → Result (List ℕ)
  pub keyed_digest : List ℕ → List ℕ → List ℕ
  pub keyed_text : List ℕ → List ℕ → List ℕ
  pub sign_text : List ℕ → List ℕ

-- The readings of the clock, the gate's answers (`cycle` of a fault, `remaining` behind it) and the
-- key that is generated.
pub record Around : Type 0 where
  pub first_reading : ℕ
  pub reading : ℕ
  pub cycle : Option Scenario → Result Bool
  pub remaining : Result ℤ
  pub ephemeral_key : List ℕ

pub data Reason : Type 0 where
  operator_complete gate_denied gate_expired authorizer_failure : Reason

-- A permit has a signature, the ephemeral key of a BIND, a duration and the time that remains.
pub data Reply : Type 0 where
  permit : List ℕ → Option (List ℕ) → ℕ → ℤ → Reply
  terminal : Reason → Reply

abbrev pub lock : Authorizer → Authorizer
lock a = record a { locked = true }

abbrev pub is_allow : Scenario → Bool
is_allow allow = true
is_allow _ = false

abbrev pub same_op : Op → Op → Bool
same_op bind bind = true
same_op arm arm = true
same_op run run = true
same_op _ _ = false

-- `"RUN" if self.armed_authorized else "ARM"`
abbrev pub expected : Authorizer → Op
expected a = if a.armed_authorized then run else arm

-- `0 < remaining <= .05`
abbrev pub in_lease : ℤ → Bool
in_lease (pos n) = ltb 0 n && leb n 50000000
in_lease (negsuc _) = false

-- `blake2b(..., key=self.session_key)`, which takes no absent key.
abbrev pub session_text : Crypto → Option (List ℕ) → List ℕ → Result (List ℕ)
session_text c none bytes = err type_error
session_text c (some key) bytes = ok (c.keyed_text key bytes)

module _ (c : Crypto) (config : Config) (env : Around) (value : Json) (r : Request) where
  -- What follows the reading of the time that remains.
  unfoldable pub advance : List ℕ → ℤ → Authorizer → Result Reply × Authorizer
  advance signature remaining a =
      if in_lease remaining
      then (
        ok (permit signature none 200 remaining),
        record a { sequence = r.sequence + 1; challenge = r.challenge; armed_authorized = true },
      )
      else (ok (terminal gate_expired), lock a)

  -- What follows a cycle of the gate.
  unfoldable pub authorize : Bool → Authorizer → Result Reply × Authorizer
  unfolding advance
  authorize false a = (ok (terminal gate_denied), lock a)
  authorize true a = elim (payload value 200) [
    | err e ↦ (err e, a)
    | ok bytes ↦ elim (session_text c a.session_key bytes) [
      | err e ↦ (err e, a)
      | ok signature ↦ elim env.remaining [
        | err e ↦ (err e, a)
        | ok remaining ↦ advance signature remaining a
      ]
    ]
  ]

  -- The session's time is over.
  abbrev pub over : ℕ → Bool
  over started = leb config.seconds (env.reading - started)

  abbrev pub fault : ℕ → Option Scenario
  fault started =
      if over started && not (is_allow config.scenario) then some config.scenario else none

  unfoldable pub decide : ℕ → Authorizer → Result Reply × Authorizer
  unfolding authorize
  decide started a =
      if is_allow config.scenario && over started
      then (ok (terminal operator_complete), lock a)
      else elim (env.cycle (fault started)) [
        | err e ↦ (err e, a)
        | ok allowed ↦ authorize allowed a
      ]

  -- The clock starts with the first ARM.
  abbrev pub clock : Authorizer → ℕ
  clock a = elim a.started [ none ↦ env.first_reading | some t ↦ t ]

  -- A request behind the BIND.
  unfoldable pub proceed : ℕ × ℕ → Authorizer → Result Reply × Authorizer
  unfolding decide
  proceed (epoch, generation) a =
      if not (r.epoch == epoch && r.generation == generation)
        || not (same_op r.op (expected a))
        || not (r.sequence == a.sequence)
        || leb r.challenge a.challenge
      then (err value_error, a)
      else decide (clock a) (record a { started = some (clock a) })

  -- The first request. The binding stays when the exchange fails.
  unfoldable pub bind_session : Authorizer → Result Reply × Authorizer
  bind_session a =
      if not (same_op r.op bind) || not (r.sequence == 0)
      then (err value_error, a)
      else let bound = record a { binding = some (r.epoch, r.generation) } in
        let ephemeral = c.public_text env.ephemeral_key in
        elim (bind_payload value ephemeral config.controller_public) [
          | err e ↦ (err e, bound)
          | ok bytes ↦ elim (c.agree env.ephemeral_key (from_hex config.controller_public)) [
            | err e ↦ (err e, bound)
            | ok shared ↦ (
              ok (permit (c.sign_text bytes) (some ephemeral) 0 (pos 500000000)),
              record bound {
                session_key = some (c.keyed_digest shared bytes);
                sequence = 1;
                challenge = r.challenge;
              },
            )
          ]
        ]

  -- The body of the `try`, behind `context`.
  unfoldable pub attempt : Authorizer → Result Reply × Authorizer
  unfolding proceed bind_session
  attempt a =
      if a.locked || not (bytes_eq r.install config.install)
      then (err value_error, a)
      else elim a.binding [ none ↦ bind_session a | some b ↦ proceed b a ]

-- `except (RuntimeError, ValueError)`
abbrev pub rescued : Result Reply × Authorizer → Result Reply × Authorizer
rescued (ok reply, a) = (ok reply, a)
rescued (err e, a) =
    if is_runtime_error e || is_value_error e
    then (ok (terminal authorizer_failure), lock a)
    else (err e, a)

unfoldable pub approve : Crypto → Config → Around → Json → Authorizer → Result Reply × Authorizer
unfolding attempt
approve c config env value a =
    rescued (elim (context value) [ err e ↦ (err e, a) | ok r ↦ attempt c config env value r a ])

-- What the loop of `serve` does with the end of `approve`: the reply is sent, and a terminal one is
-- the last.
abbrev pub reply_to :
    Json → Result Reply × Authorizer → (Authorizer → List (Json × Reply)) → List (Json × Reply)
reply_to value (ok (terminal reason), a) rest = (value, terminal reason) ∷ []
reply_to value (ok reply, a) rest = (value, reply) ∷ rest a
reply_to value (err e, a) rest = []

-- The replies that `serve` sends to the lines of the relay, oldest first, each with the request
-- that it answers. A line that is refused and an error that escapes end the loop, as does the
-- deadline.
unfoldable pub serve :
    (List ℕ → Result Json)
    → Crypto
    → Config
    → Authorizer
    → List (List ℕ × Around)
    → List (Json × Reply)
unfolding approve decode_json
serve loads c config a [] = []
serve loads c config a ((raw, env) ∷ lines) = elim (decode_json loads raw) [
  | err e ↦ []
  | ok value ↦ reply_to value (approve c config env value a) (λ a'. serve loads c config a' lines)
]
