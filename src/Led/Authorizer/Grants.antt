-- ===== src/Led/Authorizer/Grants.antt =====
-- What `Authorizer.approve` promises of each call, and that the code keeps it.
use haetae.Prelude.{
  ℕ, ◌+◌, ◌≤◌, ◌<◌, ◌≡◌, refl, sym, ap, ◌∙◌, subst, arith, Bool, true, false, not, ◌&&◌, ◌||◌,
  Option, none, some, List, leb, ◌==◌, bytes_eq, bytes_eq-eq, if◌then◌else◌, ap₂,
}
use haetae.Prelude.Int.{ℤ, pos, negsuc}
use haetae.Python.{
  Error, Result, ok, err, value_error, is_value_error, is_runtime_error, ok-injective,
}
use haetae.Python.Values.{Json}
use haetae.Led.Protocol.{Op, Request, bind, context, from_hex, payload, bind_payload}
use haetae.Led.Authorizer.{
  Config, Authorizer, Crypto, Around, Reason, Reply, permit, terminal, same_op, expected, in_lease,
  session_text, advance, authorize, over, fault, decide, clock, proceed, bind_session, attempt,
  rescued, approve, is_allow,
}

-- How a call ends: it binds an unbound session, it renews a bound one, it ends the session, or it
-- raises what `approve` does not catch.
pub data Outcome (c : Crypto) (config : Config) (env : Around) (value : Json) (a : Authorizer)
    : Result Reply × Authorizer → Type 0 where
  binds :
      (r : Request) (bytes shared : List ℕ)
      → context value ≡ ok r
      → a.locked ≡ false
      → r.install ≡ config.install
      → a.binding ≡ none
      → r.op ≡ bind
      → r.sequence ≡ 0
      → bind_payload value (c.public_text env.ephemeral_key) config.controller_public ≡ ok bytes
      → c.agree env.ephemeral_key (from_hex config.controller_public) ≡ ok shared
      → Outcome c config env value a (
        ok (permit (c.sign_text bytes) (some (c.public_text env.ephemeral_key)) 0 (pos 500000000)),
        record a {
          binding = some (r.epoch, r.generation);
          session_key = some (c.keyed_digest shared bytes);
          sequence = 1;
          challenge = r.challenge;
        },
      )
  renews :
      (r : Request) (bytes key : List ℕ) (remaining : ℕ)
      → context value ≡ ok r
      → a.locked ≡ false
      → r.install ≡ config.install
      → a.binding ≡ some (r.epoch, r.generation)
      → r.op ≡ expected a
      → r.sequence ≡ a.sequence
      → a.challenge < r.challenge
      → env.cycle (fault c config env value r (clock c config env value r a)) ≡ ok true
      → a.session_key ≡ some key
      → payload value 200 ≡ ok bytes
      → env.remaining ≡ ok (pos remaining)
      → (0 < remaining) × (remaining ≤ 50000000)
      → Outcome c config env value a (
        ok (permit (c.keyed_text key bytes) none 200 (pos remaining)),
        record a {
          started = some (clock c config env value r a);
          sequence = r.sequence + 1;
          challenge = r.challenge;
          armed_authorized = true;
        },
      )
  ends :
      (reason : Reason) (a' : Authorizer)
      → a'.locked ≡ true
      → Outcome c config env value a (ok (terminal reason), a')
  raises :
      (e : Error) (a' : Authorizer)
      → (is_runtime_error e || is_value_error e) ≡ false
      → Outcome c config env value a (err e, a')

same_op-eq : (o q : Op) → same_op o q ≡ true → o ≡ q
same_op-eq o q h = ground arith

pub by_result :
    {A B : Type 0} (P : B → Type 0) (m : Result A) {f : Error → B} {g : A → B}
    → ((e : Error) → P (f e))
    → ((v : A) → m ≡ ok v → P (g v))
    → P (elim m [ err e ↦ f e | ok v ↦ g v ])
by_result P (err e) raised returned = raised e
by_result P (ok v) raised returned = returned v refl

by_option :
    {A B : Type 0} (P : B → Type 0) (m : Option A) {x : B} {g : A → B}
    → (m ≡ none → P x)
    → ((v : A) → m ≡ some v → P (g v))
    → P (elim m [ none ↦ x | some v ↦ g v ])
by_option P none absent present = absent refl
by_option P (some v) absent present = present v refl

by_test :
    {A : Type 0} (P : A → Type 0) (test : Bool) {x y : A}
    → (test ≡ true → P x)
    → (test ≡ false → P y)
    → P (if test then x else y)
by_test P true f g = f refl
by_test P false f g = g refl

module _ (c : Crypto) (config : Config) (env : Around) (value : Json) (a : Authorizer) where
  -- What is left of a call ends in one of these ways.
  abbrev Rest : Result Reply × Authorizer → Type 0
  Rest x = Outcome c config env value a (rescued x)

  session_text-key :
      (session : Option (List ℕ)) (bytes text : List ℕ)
      → session_text c session bytes ≡ ok text
      → (key : List ℕ) × (session ≡ some key) × (c.keyed_text key bytes ≡ text)
  session_text-key none bytes text h = cc
  session_text-key (some key) bytes text h = (key, refl, ok-injective h)

  rescued-Rest : (e : Error) (a' : Authorizer) → Rest (err e, a')
  rescued-Rest e a' =
      by_test (Outcome c config env value a) (is_runtime_error e || is_value_error e)
        (λ _. ends _ _ refl) (λ h. raises e a' h)

  module _ (r : Request) (read : context value ≡ ok r) (open' : a.locked ≡ false)
      (here : r.install ≡ config.install) where
    -- The request is the next one of the session that is bound.
    record Due : Type 0 where
      its_binding : a.binding ≡ some (r.epoch, r.generation)
      its_op : r.op ≡ expected a
      its_sequence : r.sequence ≡ a.sequence
      its_challenge : a.challenge < r.challenge

    abbrev now : ℕ
    now = clock c config env value r a

    abbrev running : Authorizer
    running = record a { started = some now }

    module _ (due : Due) where
      advance-Rest :
          (bytes key : List ℕ) (remaining : ℤ)
          → env.cycle (fault c config env value r now) ≡ ok true
          → a.session_key ≡ some key
          → payload value 200 ≡ ok bytes
          → env.remaining ≡ ok remaining
          → Rest (advance c config env value r (c.keyed_text key bytes) remaining running)
      unfolding advance
      advance-Rest bytes key (pos n) cycled keyed signed left =
          by_test Rest (in_lease (pos n))
            (λ h.
              renews r bytes key n read open' here due.its_binding due.its_op due.its_sequence
                due.its_challenge cycled keyed signed left (ground arith))
            (λ _. ends _ _ refl)
      advance-Rest bytes key (negsuc n) cycled keyed signed left = ends _ _ refl

      sealed_by :
          (bytes text : List ℕ) (remaining : ℤ)
          → env.cycle (fault c config env value r now) ≡ ok true
          → payload value 200 ≡ ok bytes
          → session_text c a.session_key bytes ≡ ok text
          → env.remaining ≡ ok remaining
          → Rest (advance c config env value r text remaining running)
      sealed_by bytes text remaining cycled signed sealed left =
          let (key, keyed, e) = session_text-key a.session_key bytes text sealed in
          subst (λ t. Rest (advance c config env value r t remaining running)) e
            (advance-Rest bytes key remaining cycled keyed signed left)

      authorize-Rest :
          (allowed : Bool)
          → env.cycle (fault c config env value r now) ≡ ok allowed
          → Rest (authorize c config env value r allowed running)
      unfolding authorize
      authorize-Rest false cycled = ends _ _ refl
      authorize-Rest true cycled =
          by_result Rest (payload value 200) (λ e. rescued-Rest e running)
            (λ bytes signed.
              by_result Rest (session_text c a.session_key bytes) (λ e. rescued-Rest e running)
                (λ text sealed.
                  by_result Rest env.remaining (λ e. rescued-Rest e running)
                    (λ remaining left. sealed_by bytes text remaining cycled signed sealed left)))

      decide-Rest : Rest (decide c config env value r now running)
      unfolding decide
      decide-Rest =
          by_test Rest (is_allow config.scenario && over c config env value r now)
            (λ _. ends _ _ refl)
            (λ _.
              by_result Rest (env.cycle (fault c config env value r now))
                (λ e. rescued-Rest e running) (λ allowed cycled. authorize-Rest allowed cycled))

    proceed_tests :
        (epoch generation : ℕ)
        → (not (r.epoch == epoch && r.generation == generation)
            || not (same_op r.op (expected a))
            || not (r.sequence == a.sequence)
            || leb r.challenge a.challenge)
          ≡ false
        → a.binding ≡ some (epoch, generation)
        → Due
    proceed_tests epoch generation h b = record {
      its_binding =
          let same : (r.epoch ≡ epoch) × (r.generation ≡ generation) = ground arith in
          b ∙ ap some (ap₂ (λ x y. (x, y)) (sym same.0) (sym same.1));
      its_op = same_op-eq r.op (expected a) (ground arith);
      its_sequence = ground arith;
      its_challenge = ground arith;
    }

    proceed-Rest :
        (bound : ℕ × ℕ) → a.binding ≡ some bound → Rest (proceed c config env value r bound a)
    unfolding proceed
    proceed-Rest (epoch, generation) b =
        by_test Rest _ (λ _. rescued-Rest value_error a)
          (λ h. decide-Rest (proceed_tests epoch generation h b))

    bind_session-Rest : a.binding ≡ none → Rest (bind_session c config env value r a)
    unfolding bind_session
    bind_session-Rest b =
        by_test Rest (not (same_op r.op bind) || not (r.sequence == 0))
          (λ _. rescued-Rest value_error a)
          (λ h.
            by_result Rest
              (bind_payload value (c.public_text env.ephemeral_key) config.controller_public)
              (λ e. rescued-Rest e _)
              (λ bytes signed.
                by_result Rest (c.agree env.ephemeral_key (from_hex config.controller_public))
                  (λ e. rescued-Rest e _)
                  (λ shared agreed.
                    binds r bytes shared read open' here b (same_op-eq r.op bind (ground arith))
                      (ground arith) signed agreed)))

  attempt-Rest : (r : Request) → context value ≡ ok r → Rest (attempt c config env value r a)
  unfolding attempt
  attempt-Rest r read =
      by_test Rest (a.locked || not (bytes_eq r.install config.install))
        (λ _. rescued-Rest value_error a)
        (λ h.
          let open' : a.locked ≡ false = ground arith in
          let here = bytes_eq-eq r.install config.install (ground arith) in
          by_option Rest a.binding (λ b. bind_session-Rest r read open' here b)
            (λ bound b. proceed-Rest r read open' here bound b))

  -- Each call of `approve`, whatever the request, the state, the clock, the gate and the
  -- cryptography answer, ends in one of four ways: it binds an unbound session that a first BIND
  -- asks for; it renews the bound session for the next request in order, behind a gate cycle of
  -- this call that allowed it and with at most 50 ms of its authority left; it ends the session and
  -- is locked; or it raises an error that is neither a RuntimeError nor a ValueError.
  pub approve-Outcome : Outcome c config env value a (approve c config env value a)
  unfolding approve
  approve-Outcome =
      by_result Rest (context value) (λ e. rescued-Rest e a) (λ r read. attempt-Rest r read)
