-- ===== src/Proposals/Node.antt =====
-- `SourceSigner.propose` of ros/haetae_gate/source_node.py: the policy's input is decoded, and what
-- is malformed becomes a stop, signed like any other proposal. `json.dumps` is a parameter.
pub mod Published
use haetae.Prelude.{ℕ, suc, ◌+◌, zero, Bool, Option, none, some, List}
use haetae.Prelude.Int.{ℤ, pos, negsuc}
use haetae.Python.{Result, ok, err, invalid_proposal, ◌>>=◌}
use haetae.Python.Values.{Fields}
use haetae.Signing.{Role, vla}
use haetae.Signing.Counters.{Source, send}
use haetae.Proposals.{Action, stop}

-- The payload, without its constant source.
pub record Proposal : Type 0 where
  pub id : ℕ
  pub timestamp_ms : ℕ
  pub action : Action
  pub semantic : Option Fields

pub record Node : Type 0 where
  pub source : Source
  pub seq : ℕ

-- The `try`: the action and its semantic references, or a stop.
abbrev pub understood : Result Action → Result (Option Fields) → Result (Action × Option Fields)
understood (err invalid_proposal) binding = ok (stop, none)
understood (err e) binding = err e
understood (ok action) (err invalid_proposal) = ok (stop, none)
understood (ok action) (err e) = err e
understood (ok action) (ok binding) = ok (action, binding)

-- A stop carries no references.
abbrev pub semantic_of : Action → Option Fields → Option Fields
semantic_of stop binding = none
semantic_of _ binding = binding

module _ (key_sign : Role → List ℕ → List ℕ) (dumps : Proposal → List ℕ) (fails : Bool) where
  abbrev pub send_proposal : ℕ → Action × Option Fields → Node → Result (Unit {0}) × Node
  send_proposal stamp (action, binding) n =
      let proposal : Proposal = record {
        id = n.seq + 1;
        timestamp_ms = stamp;
        action = action;
        semantic = semantic_of action binding;
      } in
      let (result, source) = send key_sign fails vla (dumps proposal) n.source in
      (result, record { source = source; seq = n.seq + 1 })

  -- `stamp` is the clock's reading in milliseconds.
  unfoldable pub propose :
      ℤ → Result Action → Result (Option Fields) → Node → Result (Unit {0}) × Node
  propose (pos zero) parsed binding n = (ok tt, n)
  propose (negsuc _) parsed binding n = (ok tt, n)
  propose (pos (suc ms)) parsed binding n = elim (understood parsed binding) [
    | err e ↦ (err e, n)
    | ok chosen ↦ send_proposal (suc ms) chosen n
  ]
