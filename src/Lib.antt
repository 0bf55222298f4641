-- ===== src/Lib.antt =====
-- The permit chain of the haetae gateway: what an untrusted proposal passes before a controller or a
-- board accepts it.
--
-- The robot's sources sign their inputs (ros/haetae_gate/signing.py, source_node.py,
-- counter_store.py). The gateway hands them to the Rust enforcement process over a pipe and checks
-- what comes back (ros/haetae_gate/bridge.py). For a step that may drive it signs a permit for the
-- exact command or goal, bound to the controller's last challenge
-- (ros/haetae_gate/controller_permits.py). A board of the LED bench asks through a relay for one
-- permit after another in the same way (tools/permit_protocol.py, tools/permit_authorizer.py).
--
-- Files:
-- Prelude.antt and its children: numbers, lists, integers, byte and decimal encodings.
-- Python.antt, Python/: exceptions as classes, results, the values of json.loads, floats as the
--   64 bits of their pattern.
-- Bridge.antt, Bridge/: bridge.py; Bridge/Request.antt is `Bridge.request` over the chunks of the
--   pipe.
-- Permits.antt, Permits/: controller_permits.py; Clock is `AcceptedWorldClock`, Digest the two
--   digests, Rearm `explicit_rearm`, Signer `PermitSigner`.
-- Signing.antt, Signing/: signing.py; Signing/Counters.antt is the reservation of counters and
--   `SourceSigner.send`.
-- Gateway.antt, Gateway/: node.py, the ROS node `HaetaeGate`; Permit is `_permit` and `_stop_permit`,
--   Stop `_publish_command`, `_publish_zero`, `_cancel_arm`, `_abort` and `_abort_tick`, Goals
--   `_execute_arm` and the arm client's callbacks, Publish `_publish`, Receive `_receive` and
--   `_heartbeat`, Inputs the callbacks and the executor; Trace and its children are the proofs about
--   what the node sends.
-- Proposals.antt, Proposals/: proposals.py, the decoding of a policy's messages; Proposals/Node.antt
--   is `SourceSigner.propose` of source_node.py.
-- Led.antt, Led/: the LED bench. Led/Protocol.antt is permit_protocol.py, Led/Authorizer.antt is
--   permit_authorizer.py: `Authorizer.approve` and the loop of `serve`. Led/Link.antt is the relay's
--   `PermitLink` of tools/permit_link.py: `wire`, `query` and `execute`.
-- Attempts.antt, Attempts/: ros/gazebo/permit_attempts.py, the rules by which a probe of the
--   controllers passes, fails or is inconclusive: Timing at the send, Hold the evidence in a
--   controller's telemetry, Verdict the two judgements, Reset the state since a reset, Retries the
--   attempts of a case.
-- Bench.antt, Bench/: `BenchGate` of tools/bench_gate.py: a cycle of the LED bench over the modelled
--   bridge and signer, and the time that its approval leaves.
-- Tests.antt, Tests/: instances of the theorems and evaluations.
--
-- The node's callbacks run one at a time, as in its executor, and each is one action on the record
-- `Gate`. What they read (the clocks, the engine's answers, the ROS graph) comes from a tape in the
-- record `Env`, entry n at the n-th reading; what they send is put in front of the gate's trace.
--
-- Conventions. A function that may raise returns a `Result` with the class of the exception, a
-- method that changes its object returns the new object beside it, and what was written before a
-- raise stays written. Clock readings are whole numbers: nanoseconds for readings of the monotonic
-- clock and for elapsed times (where the code has a float, which the model does not round),
-- milliseconds where the code counts milliseconds. Python's int is unbounded; packed numbers are
-- bounded by their width, and packing one that does not fit raises struct.error.
-- Loops run over lists (the chunks of the pipe, the points of a goal) and need no fuel; `decimal`
-- has one unit of fuel more than its number, and a division by ten for each digit. The attempts of a
-- probe are counted down from the number that the code allows.
--
-- Not modelled: SHA-256, BLAKE2b, Ed25519 and X25519, json.dumps and json.loads, which are
-- parameters; the Rust engine, whose answers are arbitrary JSON; rclpy, sockets, processes, serial
-- ports and the file system, which enter as results of calls or as lists of events; the reading of
-- parameters, key and policy files and the making of publishers and subscriptions; the node's log
-- messages, and errors of its publishers; the texts of evidence and the diagnostics of a bench
-- cycle; the rest of the Gazebo harness, the evidence checkers, the browser simulator and the C++ and
-- C code.
pub mod Attempts
pub mod Bench
pub mod Bridge
pub mod Gateway
pub mod Led
pub mod Permits
pub mod Prelude
pub mod Proposals
pub mod Python
pub mod Signing
pub mod Tests
