-- ===== src/Led/Authorizer/History.antt =====
-- The replies of one operator session, from the first line of the relay to the last (`serve` of
-- permit_authorizer.py).
use haetae.Prelude.{
  ℕ, ◌+◌, ◌<◌, ◌≡◌, refl, sym, ap, ◌∙◌, subst, Bool, true, false, Option, none, some, List, [], ◌∷◌,
  if◌then◌else◌,
}
use haetae.Python.{Result, ok}
use haetae.Python.Values.{Json}
use haetae.Led.Protocol.{Op, Request, bind, arm, run, context, decode_json}
use haetae.Led.Authorizer.{
  Config, Authorizer, Crypto, Around, Reply, permit, terminal, init, expected, reply_to, approve,
  serve,
}
use haetae.Led.Authorizer.Grants.{Outcome, binds, renews, ends, raises, approve-Outcome, by_result}

-- What the board may ask for after an action.
abbrev pub next_op : Op → Op
next_op bind = arm
next_op arm = run
next_op run = run

-- The request comes next after the one before: the same board and session, the next action, the
-- next number, a newer challenge.
pub record Follows (q r : Request) : Type 0 where
  pub same_install : r.install ≡ q.install
  pub same_epoch : r.epoch ≡ q.epoch
  pub same_generation : r.generation ≡ q.generation
  pub the_next : r.op ≡ next_op q.op
  pub next_sequence : r.sequence ≡ q.sequence + 1
  pub newer : q.challenge < r.challenge

-- The request opens a session of the installation.
pub record Opens (config : Config) (r : Request) : Type 0 where
  pub of_install : r.install ≡ config.install
  pub a_bind : r.op ≡ bind
  pub at_zero : r.sequence ≡ 0

-- The request may be granted behind the one that was granted last, if there is one.
abbrev pub Grantable : Config → Option Request → Request → Type 0
Grantable config none r = Opens config r
Grantable config (some q) r = Follows q r

-- Each permit answers a request that comes next after the request of the permit before, and a
-- terminal reply is the last.
abbrev pub Chain : Config → Option Request → List (Json × Reply) → Type 0
Chain config last [] = Unit
Chain config last ((value, terminal reason) ∷ rest) = rest ≡ []
Chain config last ((value, permit signature ephemeral duration remaining) ∷ rest) =
    (r : Request) × (context value ≡ ok r) × Grantable config last r × Chain config (some r) rest

-- The state that the last permit leaves.
pub record Kept (q : Request) (config : Config) (a : Authorizer) : Type 0 where
  pub kept_install : q.install ≡ config.install
  pub kept_binding : a.binding ≡ some (q.epoch, q.generation)
  pub kept_sequence : a.sequence ≡ q.sequence + 1
  pub kept_challenge : a.challenge ≡ q.challenge
  pub kept_op : expected a ≡ next_op q.op

abbrev pub Linked : Config → Option Request → Authorizer → Type 0
Linked config none a = (a.binding ≡ none) × (a.armed_authorized ≡ false)
Linked config (some q) a = Kept q config a

some-injective : {A : Type 0} {x y : A} → some x ≡ some y → x ≡ y
some-injective h = cc

some-ne-none : {A : Type 0} {x : A} → some x ≡ none → ⊥
some-ne-none h = cc

bound-Kept :
    (config : Config) (r : Request) (a : Authorizer)
    → r.install ≡ config.install
    → a.binding ≡ some (r.epoch, r.generation)
    → a.sequence ≡ r.sequence + 1
    → a.challenge ≡ r.challenge
    → expected a ≡ next_op r.op
    → Kept r config a
bound-Kept config r a i b s c o = record {
  kept_install = i;
  kept_binding = b;
  kept_sequence = s;
  kept_challenge = c;
  kept_op = o;
}

renewed-Follows :
    (config : Config) (q r : Request) (a : Authorizer)
    → Kept q config a
    → r.install ≡ config.install
    → a.binding ≡ some (r.epoch, r.generation)
    → r.op ≡ expected a
    → r.sequence ≡ a.sequence
    → a.challenge < r.challenge
    → Follows q r
renewed-Follows config q r a k i b o s n =
    let pair : (r.epoch, r.generation) ≡ (q.epoch, q.generation) =
      some-injective (sym b ∙ k.kept_binding) in
    record {
      same_install = i ∙ sym k.kept_install;
      same_epoch = ap (λ x. x.0) pair;
      same_generation = ap (λ x. x.1) pair;
      the_next = o ∙ k.kept_op;
      next_sequence = s ∙ k.kept_sequence;
      newer = subst (λ n. n < r.challenge) k.kept_challenge n;
    }

by_flag : (b : Bool) → run ≡ next_op (if b then run else arm)
by_flag true = refl
by_flag false = refl

expected-next : (a : Authorizer) → run ≡ next_op (expected a)
expected-next a = by_flag a.armed_authorized

reply_to-Chain :
    (c : Crypto) (config : Config) (env : Around) (value : Json) (a : Authorizer)
    (last : Option Request) (rest : Authorizer → List (Json × Reply))
    (o : Result Reply × Authorizer)
    → Outcome c config env value a o
    → Linked config last a
    → ((q : Request) (a' : Authorizer) → Kept q config a' → Chain config (some q) (rest a'))
    → Chain config last (reply_to value o rest)
reply_to-Chain c config env value a none rest _
      (binds r bytes shared read open' here free op zero' signed agreed) (_, fresh) k =
    (
      r,
      read,
      record { of_install = here; a_bind = op; at_zero = zero' },
      k r _ (
          bound-Kept config r _ here refl (ap (λ n. n + 1) (sym zero')) refl (rw (fresh, op) refl)),
    )
reply_to-Chain c config env value a (some q) rest _
      (binds r bytes shared read open' here free op zero' signed agreed) l k =
    absurd (some-ne-none (sym l.kept_binding ∙ free))
reply_to-Chain c config env value a none rest _
      (renews r bytes key n read open' here bound op s ch cy ky sg rm lt) (free, _) k =
    absurd (some-ne-none (sym bound ∙ free))
reply_to-Chain c config env value a (some q) rest _
      (renews r bytes key n read open' here bound op s ch cy ky sg rm lt) l k =
    (
      r,
      read,
      renewed-Follows config q r a l here bound op s ch,
      k r _ (bound-Kept config r _ here bound refl refl (expected-next a ∙ ap next_op (sym op))),
    )
reply_to-Chain c config env value a last rest _ (ends reason a' locked) l k = refl
reply_to-Chain c config env value a last rest _ (raises e a' h) l k = tt

module _ (loads : List ℕ → Result Json) (c : Crypto) (config : Config) where
  serve-Linked :
      (last : Option Request) (a : Authorizer) (lines : List (List ℕ × Around))
      → Linked config last a
      → Chain config last (serve loads c config a lines)
  unfolding serve
  serve-Linked last a [] l = tt
  serve-Linked last a ((raw, env) ∷ lines) l =
      by_result (Chain config last) (decode_json loads raw) (λ e. tt)
        (λ value read.
          reply_to-Chain c config env value a last (λ a'. serve loads c config a' lines)
            (approve c config env value a) (approve-Outcome c config env value a) l
            (λ q a' kept. serve-Linked (some q) a' lines kept))

  -- Whatever the relay sends and the gate answers, the permits of an operator session form one
  -- chain: the first is for a BIND with sequence 0 on the session's installation, and each further
  -- one is for the same installation, epoch and generation, for ARM and then always RUN, with the
  -- next sequence number and a larger challenge; nothing follows a terminal reply.
  pub serve-Chain :
      (lines : List (List ℕ × Around)) → Chain config none (serve loads c config init lines)
  serve-Chain lines = serve-Linked none init lines (refl, refl)
