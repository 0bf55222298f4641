-- ===== src/Proposals/Node/Published.antt =====
-- What `SourceSigner.propose` publishes.
use haetae.Prelude.{
  ℕ, suc, zero, ◌+◌, ◌<◌, ◌≡◌, refl, sym, ap, ◌∙◌, ◌⊎◌, inl, inr, arith, Bool, true, false, Option,
  none, List, ◌∷◌,
}
use haetae.Prelude.Int.{ℤ, pos, negsuc}
use haetae.Python.{Result, ok, err, invalid_proposal, >>=-eq-ok, ok-injective}
use haetae.Python.Values.{Fields}
use haetae.Permits.Signer.Observe.{Result-cases}
use haetae.Signing.{Role, vla, Envelope, Signer, input_message, sign}
use haetae.Signing.Counters.{Source, reserve, send}
use haetae.Signing.Counters.Invariant.{signed}
use haetae.Proposals.{Action, stop, velocity, joint_trajectory}
use haetae.Proposals.Node.{Proposal, Node, understood, semantic_of, propose}

-- A proposal says no more than its input: it is a stop without references, or the decoded action
-- with the decoded references.
pub record Proposes (stamp : ℤ) (parsed : Result Action) (binding : Result (Option Fields))
    (n : Node) (p : Proposal) : Type 0 where
  pub its_id : p.id ≡ n.seq + 1
  pub its_stamp : stamp ≡ pos p.timestamp_ms
  pub after_zero : 0 < p.timestamp_ms
  pub its_action :
      ((p.action ≡ stop) × (p.semantic ≡ none))
      ⊎ ((parsed ≡ ok p.action) × (binding ≡ ok p.semantic))

-- The envelope of a payload, newly signed.
pub record Signs (payload : List ℕ) (s : Signer) (e : Envelope) : Type 0 where
  pub of_vla : e.role ≡ vla
  pub of_payload : e.payload ≡ payload
  pub next_counter : e.counter ≡ s.counters vla + 1
  pub with_key : s.has_key vla ≡ true

sign-Signs :
    (key_sign : Role → List ℕ → List ℕ) (payload : List ℕ) (s s' : Signer) (e : Envelope)
    → sign key_sign vla payload s ≡ ok (e, s')
    → Signs payload s e
unfolding sign
sign-Signs key_sign payload s s' e h =
    let (key, h1) = signed (s.has_key vla) _ h in
    let (message, _, h2) =
      >>=-eq-ok (input_message s.audience s.epoch (s.counters vla + 1) vla payload) _ h1 in
    let same = ok-injective h2 in
    record {
      of_vla = ap (λ x. x.0.role) (sym same);
      of_payload = ap (λ x. x.0.payload) (sym same);
      next_counter = ap (λ x. x.0.counter) (sym same);
      with_key = key;
    }

send_cases :
    (key_sign : Role → List ℕ → List ℕ) (fails : Bool) (payload : List ℕ) (s : Source)
    → ((send key_sign fails vla payload s).1.published ≡ s.published)
      ⊎ ((e : Envelope) × ((send key_sign fails vla payload s).1.published ≡ e ∷ s.published)
          × Signs payload s.signer e)
unfolding send reserve
send_cases key_sign fails payload s = elim (Result-cases (sign key_sign vla payload s.signer)) [
  | inl ((envelope, signer), h) ↦ by_write fails envelope signer h
  | inr (e, h) ↦ inl (rw (h, send) refl)
]
  where
    by_write :
        (b : Bool) (envelope : Envelope) (signer : Signer)
        → sign key_sign vla payload s.signer ≡ ok (envelope, signer)
        → ((send key_sign b vla payload s).1.published ≡ s.published)
          ⊎ ((e : Envelope) × ((send key_sign b vla payload s).1.published ≡ e ∷ s.published)
              × Signs payload s.signer e)
    by_write true envelope signer h = inl (rw (h, send) refl)
    by_write false envelope signer h =
        inr (envelope, rw (h, send) refl, sign-Signs key_sign payload s.signer signer envelope h)

a_stop :
    (action : Action) (references : Option Fields)
    → ◌≡◌ {A = Action × Option Fields} (action, references) (stop, none)
    → (action ≡ stop) × (semantic_of action references ≡ none)
a_stop action references e = (ap (λ x. x.0) e, ap (λ x. semantic_of x.0 x.1) e)

kept :
    (x : Action) (b : Option Fields) (action : Action) (references : Option Fields)
    → semantic_of x b ≡ b
    → ◌≡◌ {A = Action × Option Fields} (x, b) (action, references)
    → (ok x ≡ ok action) × (ok b ≡ ok (semantic_of action references))
kept x b action references s e =
    (ap (λ y. ok y.0) e, ap ok (sym s) ∙ ap (λ y. ok (semantic_of y.0 y.1)) e)

chosen-Proposes :
    (parsed : Result Action) (binding : Result (Option Fields)) (action : Action)
    (references : Option Fields)
    → understood parsed binding ≡ ok (action, references)
    → ((action ≡ stop) × (semantic_of action references ≡ none))
      ⊎ ((parsed ≡ ok action) × (binding ≡ ok (semantic_of action references)))
chosen-Proposes (err invalid_proposal) binding action references h =
    inl (a_stop action references (sym (ok-injective h)))
chosen-Proposes (err _) binding action references h = cc
chosen-Proposes (ok x) (err invalid_proposal) action references h =
    inl (a_stop action references (sym (ok-injective h)))
chosen-Proposes (ok x) (err _) action references h = cc
chosen-Proposes (ok stop) (ok b) action references h =
    let e : action ≡ stop = ap (λ x. x.0) (sym (ok-injective h)) in
    inl (e, ap (λ x. semantic_of x references) e)
chosen-Proposes (ok (velocity l a t)) (ok b) action references h =
    inr (kept _ b action references refl (ok-injective h))
chosen-Proposes (ok (joint_trajectory ps t)) (ok b) action references h =
    inr (kept _ b action references refl (ok-injective h))

module _ (key_sign : Role → List ℕ → List ℕ) (dumps : Proposal → List ℕ) (fails : Bool) where
  -- A call of `propose` publishes nothing, or exactly one envelope: for the role of the policy,
  -- with the next counter, whose payload is a proposal with the next id, a time after zero and
  -- either a stop without references or the action and the references that the input was decoded
  -- to.
  pub propose-Proposes :
      (stamp : ℤ) (parsed : Result Action) (binding : Result (Option Fields)) (n : Node)
      → ((propose key_sign dumps fails stamp parsed binding n).1.source.published
          ≡ n.source.published)
        ⊎ ((e : Envelope) × (p : Proposal) × ((propose key_sign dumps fails stamp parsed binding
                n).1.source.published
              ≡ e ∷ n.source.published)
            × Signs (dumps p) n.source.signer e
            × Proposes stamp parsed binding n p)
  unfolding propose
  propose-Proposes (pos zero) parsed binding n = inl refl
  propose-Proposes (negsuc _) parsed binding n = inl refl
  propose-Proposes (pos (suc ms)) parsed binding n =
      elim (Result-cases (understood parsed binding)) [
        | inl ((action, references), h) ↦
            let p : Proposal = record {
              id = n.seq + 1;
              timestamp_ms = suc ms;
              action = action;
              semantic = semantic_of action references;
            } in
            elim (send_cases key_sign fails (dumps p) n.source) [
              | inl same ↦ inl (rw (h, propose) same)
              | inr (e, published, good) ↦ inr (
                e,
                p,
                rw (h, propose) published,
                good,
                record {
                  its_id = refl;
                  its_stamp = refl;
                  after_zero = omega arith;
                  its_action = chosen-Proposes parsed binding action references h;
                },
              )
            ]
        | inr (e, h) ↦ inl (rw (h, propose) refl)
      ]

-- Input that the decoding refuses: the action, or the references of a decoded action.
abbrev pub Malformed : Result Action → Result (Option Fields) → Type 0
Malformed parsed binding =
    (parsed ≡ err invalid_proposal)
    ⊎ ((action : Action) × (parsed ≡ ok action) × (binding ≡ err invalid_proposal))

understood-Malformed :
    (parsed : Result Action) (binding : Result (Option Fields))
    → Malformed parsed binding
    → understood parsed binding ≡ ok (stop, none)
understood-Malformed parsed binding (inl h) = rw h refl
understood-Malformed parsed binding (inr (action, h, k)) = rw (h, k) refl

abbrev pub stopping : ℕ → Node → Proposal
stopping ms n = record { id = n.seq + 1; timestamp_ms = suc ms; action = stop; semantic = none }

-- Malformed input, at a time after zero, with a working key and file, is answered by the signed
-- stop: the call returns, its envelope is the one of the stop, and the next id is taken.
pub propose-Malformed :
    (key_sign : Role → List ℕ → List ℕ) (dumps : Proposal → List ℕ) (ms : ℕ)
    (parsed : Result Action) (binding : Result (Option Fields)) (n : Node) (e : Envelope)
    (signer : Signer)
    → Malformed parsed binding
    → sign key_sign vla (dumps (stopping ms n)) n.source.signer ≡ ok (e, signer)
    → ((propose key_sign dumps false (pos (suc ms)) parsed binding n).0 ≡ ok tt)
      × ((propose key_sign dumps false (pos (suc ms)) parsed binding n).1.source.published
          ≡ e ∷ n.source.published)
      × ((propose key_sign dumps false (pos (suc ms)) parsed binding n).1.seq ≡ n.seq + 1)
unfolding propose send reserve
propose-Malformed key_sign dumps ms parsed binding n e signer bad h =
    let m = understood-Malformed parsed binding bad in
    (rw (m, h, propose, send) refl, rw (m, h, propose, send) refl, rw (m, propose) refl)
