-- ===== src/Tests/Proposals.antt =====
-- Proposals of a policy at concrete messages (proposals.py, source_node.py).
use haetae.Prelude.{
  ℕ, ◌≡◌, ◌≤◌, ◌⊎◌, refl, inl, inr, All, false, none, some, List, [], ◌∷◌, length, take, drop,
  codes,
}
use haetae.Prelude.Bytes.{is_hex, big_endian}
use haetae.Prelude.Int.{pos}
use haetae.Python.{Result, ok, err, invalid_proposal, value_error}
use haetae.Python.Values.{Json, Fields, int, str, obj, end, field, find?, find_or, has, has_exactly}
use haetae.Python.Double.{is_finite, is_zero}
use haetae.Permits.Digest.{joints, same_names}
use haetae.Signing.{Envelope, Signer, pack, input_message, sign}
use haetae.Signing.Counters.{reserve, send}
use haetae.Proposals.{
  Waypoint, velocity, joint_trajectory, base_action, fixed_lease, millis, waypoint, waypoints,
  duration_of, planned, arm_action, semantic_binding, is_binding,
}
use haetae.Proposals.Accepted.{Accepts, arm_action-Accepts}
use haetae.Proposals.Signable.{StopsOrMoves, arm_message-arm_action, base_message-base_action}
use haetae.Proposals.Binding.{Binding, semantic_binding-Binding}
use haetae.Proposals.Errors.{arm_action_raises}
use haetae.Proposals.Node.{Node, Proposal, propose}
use haetae.Proposals.Node.Published.{Proposes, Signs, propose-Proposes, propose-Malformed, stopping}
use haetae.Tests.Digests.{
  drive, drive_bytes, drive_message, half, reach, reach_bytes, reach_message,
}
use haetae.Tests.Signing.{key_sign, fresh}

drives : base_action drive 200 ≡ ok (velocity half 0 200)
unfolding base_action is_finite is_zero
drives = refl

abbrev waypoint_list : List Waypoint
waypoint_list = record { time_from_start_ms = 100; positions = half ∷ 0 ∷ 0 ∷ 0 ∷ [] } ∷ []

reaches : arm_action reach joints (int (pos 1000)) ≡ ok (joint_trajectory waypoint_list 1000)
unfolding arm_action fixed_lease same_names waypoints waypoint millis planned is_finite
reaches = refl

arm_action-Accepts_example : Accepts reach joints (joint_trajectory waypoint_list 1000)
arm_action-Accepts_example =
    arm_action-Accepts reach joints (int (pos 1000)) (joint_trajectory waypoint_list 1000) reaches

abbrev second : ℕ
second = 1000

arm_message-arm_action_example :
    (points : List Waypoint) × (duration : ℕ) × All (λ w. w.time_from_start_ms ≤ 1000) points
    × (duration_of points ≡ ok duration)
    × (arm_action reach joints (int (pos second)) ≡ ok (joint_trajectory points second))
arm_message-arm_action_example =
    arm_message-arm_action reach reach_bytes second reach_message (inr refl)

abbrev references : Fields
references = field "schema_version" (int (pos 1)) (
    field "world_revision" (int (pos 5)) (
      field "task_revision" (int (pos 2)) (
        field "task_id" (str "pick-1") (
          field "step_id" (str "s1") (
            field "robot_id" (str "arm.a") (
              field "model_sha256"
                (str "00112233445566778899aabbccddeeff00112233445566778899aabbccddeeff")
                (field "tool_id" (str "grip") (field "item_id" (str "cup_2") end))))))))

abbrev decode : List ℕ → Result Json
decode [] = err value_error
decode _ = ok (obj references)

referenced : semantic_binding decode (codes "haetae.semantic.v1:{}") ≡ ok (some references)
unfolding semantic_binding is_binding has_exactly has find? find_or is_hex
referenced = refl

semantic_binding-Binding_example :
    (take 19 (codes "haetae.semantic.v1:{}") ≡ codes "haetae.semantic.v1:")
    × (length (codes "haetae.semantic.v1:{}") ≤ 2048)
    × (decode (drop 19 (codes "haetae.semantic.v1:{}")) ≡ ok (obj references))
    × Binding references
semantic_binding-Binding_example =
    semantic_binding-Binding decode (codes "haetae.semantic.v1:{}") references referenced

unreferenced : semantic_binding decode (codes "base_link") ≡ ok none
unfolding semantic_binding
unreferenced = refl

undecodable : semantic_binding decode (codes "haetae.semantic.v1:") ≡ err invalid_proposal
unfolding semantic_binding
undecodable = refl

abbrev node : Node
node = record { source = fresh; seq = 0 }

abbrev dumps : Proposal → List ℕ
dumps p = p.id ∷ p.timestamp_ms ∷ []

abbrev proposed : Node
proposed = (propose key_sign dumps false (pos 20) (ok (velocity half 0 200)) (ok none) node).1

abbrev envelope : Envelope
envelope = record {
  audience = codes "bot";
  epoch = 7;
  counter = 1;
  role = haetae.Signing.vla;
  payload = 1 ∷ 20 ∷ [];
  signature = [];
}

proposed_once : proposed.source.published ≡ envelope ∷ []
unfolding propose send reserve sign input_message pack big_endian
proposed_once = refl

propose-Proposes_example :
    (proposed.source.published ≡ [])
    ⊎ ((e : Envelope) × (p : Proposal) × (proposed.source.published ≡ e ∷ [])
        × Signs (dumps p) fresh.signer e
        × Proposes (pos 20) (ok (velocity half 0 200)) (ok none) node p)
propose-Proposes_example =
    propose-Proposes key_sign dumps false (pos 20) (ok (velocity half 0 200)) (ok none) node

abbrev signer_after : Signer
signer_after = elim (sign key_sign haetae.Signing.vla (dumps (stopping 19 node)) fresh.signer) [
  | ok x ↦ x.1
  | err _ ↦ fresh.signer
]

stop_signed :
    sign key_sign haetae.Signing.vla (dumps (stopping 19 node)) fresh.signer
    ≡ ok (envelope, signer_after)
unfolding sign input_message pack big_endian
stop_signed = refl

propose-Malformed_example :
    ((propose key_sign dumps false (pos 20) (err invalid_proposal) (ok none) node).0 ≡ ok tt)
    × ((propose key_sign dumps false
          (pos 20)
          (err invalid_proposal)
          (ok none)
          node).1.source.published
        ≡ envelope ∷ [])
    × ((propose key_sign dumps false (pos 20) (err invalid_proposal) (ok none) node).1.seq ≡ 1)
propose-Malformed_example =
    propose-Malformed key_sign dumps 19 (err invalid_proposal) (ok none) node envelope signer_after
      (inl refl) stop_signed

base_message-base_action_example : StopsOrMoves drive 200 (base_action drive 200)
base_message-base_action_example = base_message-base_action drive drive_bytes 200 drive_message

misnamed : arm_action reach [] (int (pos 1000)) ≡ err invalid_proposal
unfolding arm_action fixed_lease same_names
misnamed = refl

arm_action_raises_example : invalid_proposal ≡ invalid_proposal
arm_action_raises_example = arm_action_raises reach [] (int (pos 1000)) invalid_proposal misnamed
