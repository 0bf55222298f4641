-- ===== src/Led/Link/Acknowledged.antt =====
-- What a command that returned has established about the board (`PermitLink.execute` of
-- permit_link.py), and that the next request of the relay is the one that the authorizer waits for.
use haetae.Prelude.{
  ℕ, ◌≡◌, refl, sym, ap, ◌∙◌, subst, arith, true, ◌&&◌, Option, some, List, [], if◌then◌else◌,
}
use haetae.Python.{Result, ok, err, link_error}
use haetae.Led.Protocol.{Request}
use haetae.Led.Protocol.Requests.{IsRequest}
use haetae.Led.Authorizer.History.{Follows, next_op}
use haetae.Led.Link.{
  State, PermitLink, Port, exchanged, wire, read_line, is_state_of, is_acknowledged, acknowledge,
  permit_line, execute, ask,
}
use haetae.Led.Link.Answered.{chosen, state_text, Reads, state_of-text, exchanged-Reads}

-- What an acknowledgment establishes of the answer behind a command.
acknowledge-Follows :
    (request value : Request) (state : State) (link link' : PermitLink)
    → link.current ≡ some value
    → value.install ≡ request.install
    → acknowledge request (ok state, link) ≡ (ok tt, link')
    → (is_state_of request.op state ≡ true)
      × (link'.current ≡ some value)
      × Follows request (ask value (next_op request.op))
acknowledge-Follows request value state link link' current installs h =
    let passed : (if is_state_of request.op state && is_acknowledged request value
          then ok tt
          else err link_error)
        ≡ ok tt =
      rw current at (ap (λ x. x.0) h) in
    let (t, _) = chosen _ tt tt link_error passed in
    let kept : link ≡ link' = ap (λ x. x.1) h in
    (
      ground arith,
      sym (ap (λ x. x.current) kept) ∙ current,
      record {
        same_install = installs;
        same_epoch = ground arith;
        same_generation = ground arith;
        the_next = refl;
        next_sequence = ground arith;
        newer = ground arith;
      },
    )

-- What the board has answered to an action that it executed, and what the link keeps of it.
abbrev pub Executed : Request → Port → PermitLink → Type 0
Executed request port link =
    (line : List ℕ) × (value : Request) × (read_line [] port.reads ≡ ok (line, []))
    × Reads request.install (state_text request.op) line value
    × (link.current ≡ some value)
    × IsRequest value
    × Follows request (ask value (next_op request.op))

-- For a request of the link's installation: where `execute` returns, the board has answered with
-- one line and nothing behind it, made of the installation, the word of the state that the action
-- leads to, and the numbers and the nonce of a well-formed request. The link keeps that request,
-- and what the relay makes of it for the next action follows the request that was executed, as the
-- authorizer demands: the same installation, epoch and generation, the next sequence number and a
-- newer challenge.
pub execute-Follows :
    (request : Request) (signature : List ℕ) (duration : ℕ) (ephemeral : Option (List ℕ))
    (port : Port) (link link' : PermitLink)
    → request.install ≡ link.install
    → execute request signature duration ephemeral port link ≡ (ok tt, link')
    → Executed request port link'
unfolding execute wire
execute-Follows request signature duration ephemeral port link link' installs h =
    framed (permit_line request signature duration ephemeral) h
  where
    answered :
        (raw : List ℕ) (m : Result (Request × State))
        → exchanged link.install raw port ≡ m
        → acknowledge request (elim m [
          | err e ↦ (err e, link)
          | ok (value, state) ↦ (ok state, record link { current = some value })
        ])
          ≡ (ok tt, link')
        → Executed request port link'
    answered raw (err e) x k = cc
    answered raw (ok (value, state)) x k =
        let (line, text, got, word, here, good, its) =
          exchanged-Reads link.install raw port value state x in
        let (led, kept, follows) =
          acknowledge-Follows request value state _ link' refl (here ∙ sym installs) k in
        let same : text ≡ state_text request.op = state_of-text request.op text state word led in
        (
          line,
          value,
          got,
          subst (λ i. Reads i (state_text request.op) line value) (sym installs)
              (subst (λ t. Reads link.install t line value) same its),
          kept,
          good,
          follows,
        )

    framed :
        (m : Result (List ℕ))
        → (elim m as (λ _. Result (Unit {0}) × PermitLink) [
          | err e ↦ (err e, link)
          | ok raw ↦ acknowledge request (wire raw port link)
        ])
          ≡ (ok tt, link')
        → Executed request port link'
    framed (err e) k = cc
    framed (ok raw) k = answered raw (exchanged link.install raw port) refl k
