-- ===== src/Bridge/Request/Answers.antt =====
-- What an answer that the bridge accepts looks like.
use haetae.Prelude.{ℕ, ◌≡◌, refl, sym, ap, ◌∙◌, Bool, true, false, arith, List, ◌++◌, some}
use haetae.Python.{Result, ok, err, value_error, raise_if, at, >>=-eq-ok, ok-injective, ◌>>◌}
use haetae.Python.Double.{is_finite}
use haetae.Python.Values.{Json, int, float}
use haetae.Bridge.Request.{
  Bridge, Codec, Read, partition, receive, request, answer_line, as_bridge_failure, checked_answer,
  is_invalid_velocity,
}
use haetae.Bridge.Request.Lines.{bytes_of, receive-partition}

-- A number that is not NaN and not infinite.
abbrev pub IsFinite : Json → Type 0
IsFinite (int n) = Unit
IsFinite (float bits) = is_finite bits ≡ true
IsFinite _ = ⊥

is_invalid_velocity-IsFinite : (v : Json) → is_invalid_velocity v ≡ ok false → IsFinite v
unfolding is_invalid_velocity
is_invalid_velocity-IsFinite (int n) h = tt
is_invalid_velocity-IsFinite (float bits) h = ground arith
is_invalid_velocity-IsFinite _ h = cc

-- All that the pipe has delivered or will deliver and no request has consumed.
abbrev pub stream : Bridge → List ℕ
stream b = b.buffer ++ bytes_of b.reads

raise_if-eq :
    (bad : Bool) {A : Type 0} (m : Result A) {a : A}
    → (do raise_if bad value_error; m) ≡ ok a
    → (bad ≡ false) × (m ≡ ok a)
raise_if-eq true m h = cc
raise_if-eq false m h = (refl, h)

-- An answer with a command whose two velocities are finite numbers.
pub record HasVelocity (answer : Json) : Type 0 where
  pub cmd : Json
  pub linear : Json
  pub angular : Json
  pub has_cmd : at "cmd" answer ≡ ok cmd
  pub has_linear : at "linear" cmd ≡ ok linear
  pub has_angular : at "angular" cmd ≡ ok angular
  pub linear_finite : IsFinite linear
  pub angular_finite : IsFinite angular

checked_answer-HasVelocity :
    (codec : Codec) (line : List ℕ) (answer : Json)
    → checked_answer codec line ≡ ok answer
    → (codec.loads line ≡ ok answer) × HasVelocity answer
unfolding checked_answer
checked_answer-HasVelocity codec line answer h =
    let (a, loaded, h1) = >>=-eq-ok (codec.loads line) _ h in
    let (cmd, hc, h2) = >>=-eq-ok (at "cmd" a) _ h1 in
    let (linear, hl, h3) = >>=-eq-ok (at "linear" cmd) _ h2 in
    let (bl, il, h4) = >>=-eq-ok (is_invalid_velocity linear) _ h3 in
    let (fl, h5) = raise_if-eq bl _ h4 in
    let (angular, ha, h6) = >>=-eq-ok (at "angular" cmd) _ h5 in
    let (ba, ia, h7) = >>=-eq-ok (is_invalid_velocity angular) _ h6 in
    let (fa, h8) = raise_if-eq ba _ h7 in
    let same = ok-injective h8 in
    (
      loaded ∙ h8,
      record {
        cmd = cmd;
        linear = linear;
        angular = angular;
        has_cmd = ap (at "cmd") (sym same) ∙ hc;
        has_linear = hl;
        has_angular = ha;
        linear_finite = is_invalid_velocity-IsFinite linear (il ∙ ap ok fl);
        angular_finite = is_invalid_velocity-IsFinite angular (ia ∙ ap ok fa);
      },
    )

as_bridge_failure-eq : {A : Type 0} (m : Result A) {a : A} → as_bridge_failure m ≡ ok a → m ≡ ok a
as_bridge_failure-eq (ok b) h = h
as_bridge_failure-eq (err value_error) h = cc
as_bridge_failure-eq (err _) h = cc

-- What an answered request did: it consumed the first line of the stream and nothing behind it, and
-- the answer is that line, decoded, with finite velocities.
pub record Answered (codec : Codec) (b b' : Bridge) (answer : Json) : Type 0 where
  pub line : List ℕ
  pub first : partition (stream b) ≡ some (line, stream b')
  pub decoded : codec.loads line ≡ ok answer
  pub velocity : HasVelocity answer

answer_line-Answered :
    (codec : Codec) (b b' : Bridge) (answer : Json) (r : Result (List ℕ) × List ℕ × List Read)
    → receive b.buffer b.reads ≡ r
    → answer_line codec b r ≡ (ok answer, b')
    → Answered codec b b' answer
answer_line-Answered codec b b' answer (ok line, buffer, reads) e h =
    let (decoded, velocity) =
      checked_answer-HasVelocity codec line answer (as_bridge_failure-eq _ (ap (λ p. p.0) h)) in
    record {
      line = line;
      first =
          receive-partition b.buffer b.reads line buffer reads e
          ∙ ap (λ p. some (line, stream p.1)) h;
      decoded = decoded;
      velocity = velocity;
    }
answer_line-Answered codec b b' answer (err x, buffer, reads) e h = cc

-- Every answer that the bridge returns is the next line of the process's output, however the pipe
-- cut it into chunks, and carries finite velocities.
pub request-Answered :
    (codec : Codec) (message answer : Json) (b b' : Bridge)
    → request codec message b ≡ (ok answer, b')
    → Answered codec b b' answer
unfolding request
request-Answered codec message answer b b' h =
    ground (arith, answer_line-Answered codec b b' answer (receive b.buffer b.reads) refl)
