-- ===== src/Lib.antt =====
-- TRELYAN inscriptions: a smart contract on Algorand writes one write-once record per cell (an
-- NFT), after its native opcode has verified a Falcon-1024 signature over a message that names
-- the application, the cell, the artifact hash and the network; an SDK builds and signs that
-- message off-chain.
--
-- Parts, and where they are modelled:
--
-- - Prelude (and its children): Boolean tests, lists, byte strings with big-endian integers, the
--   boxes of one BoxMap as an association list, and results. Exceptions: what the Python code
--   raises.
-- - Message: sdk/src/trelyan_pq/message.py (constants, cell_key, the box names, box_refs,
--   build_message) and the second build_message, of contracts/falcon_det1024.py (here
--   reference_build_message). The values that Python passes as ids are a data type that keeps
--   int, bool and anything else apart. Children: Layout (bytes of the message), Boxes (box
--   names), Agreement (the two builders).
-- - Contract: contracts/inscription.py. State holds the three BoxMaps, the admin and the
--   counter; each method is a function from the state before to the state after or to the
--   assertion that fails, with the assertions in the order of the source. Call and dispatch are
--   the methods by name. Children: Accepts (when a method accepts), Trace (runs of accepted
--   calls), Invariant, Permanence, Authority, Group (atomic groups), Lifecycle (an abstract
--   machine for one cell), Signing (what a signature means), Storage (the bytes of a record,
--   from contracts/out/TrelyanInscription.approval.teal, and the cost of the boxes).
-- - Machine: what a call of the SDK works on (World: the _lib of each object by its address, the
--   randomness to come, the ctypes buffers by address, those of key material apart from those of
--   public keys and signatures, the pinned pages, the store) and the monad M of calls that may
--   raise and keep what they have written. Children: Leaves (calls that leave a part of the
--   world alone), Triples (what holds after a call, on return and on raise).
-- - Falcon: sdk/src/trelyan_pq/falcon.py, the guards around the C library. keygen_into_buffer is
--   _keygen_into_buffer, lib_ref is _lib_ref, load is _load. An instance is its path and its
--   address; new makes one, with no library loaded. Children: Frame, Buffers (which buffers hold
--   key material), Signing, Verified, Correct (what a library that works does, and the key it
--   makes), Generates (making such a key), Returns (signing and verifying with such a key),
--   Default (the functions of the module over one shared instance), Reference (the binding of
--   contracts/falcon_det1024.py next to this one).
-- - Seal: sdk/src/trelyan_pq/seal.py. keygen_sign_seal with sign_and_check, the body of its try
--   block. Children: Store (the protocol SealStore with its laws, and InMemorySealStore),
--   JsonFile (JsonFileSealStore), Crash (its record in steps on a disk, and Whole), Wipe,
--   Recorded (what a return and a raise leave), Guarantees, Completes (when a seal returns),
--   Isolated (keygen_sign_seal_isolated, with the worker process as a parameter), Spawned (the
--   same with main of Seal.Worker as that process: sent is the request, spawn subprocess.run).
--
-- - Seal.Worker: sdk/src/trelyan_pq/_seal_worker.py, the process that makes the key. Host is
--   what the operating system answers, Fields what the conversions of the request give, Output
--   what main prints and returns. Children: Wiped, Verified, Replies (what it prints when
--   nothing fails).
-- - Ledger: the network as the client and the deployment script use it: the state of the
--   contract, the assets, and a list of deliveries, one for each transaction to come. A Delivery
--   says which calls of other accounts come first, what the call reads of the ledger, and its
--   Fate: lost, unconfirmed (it lands and no answer comes back) or confirmed. Children:
--   Delivered (one delivery), Keeps (what transactions keep if other accounts keep it), Moves
--   (transactions that call no method).
-- - Client: sdk/src/trelyan_pq/inscription.py. submit_static is the first attempt of inscribe,
--   submit_again its handler. Children: Outcome, Standing (the place of the client between other
--   accounts), Read, Landed.
-- - Deploy: contracts/deploy_testnet.py. main is connect, set_up and inscribe_demo in this
--   order. Children: Retry, Network, Inscribed, Run.
--
-- - Checks: how a release check ends. Checks.Teal: contracts/verify_teal_matches_source.py, with
--   normalise, instructions and main for _normalise, _instructions and main; children Specs,
--   Exit, Lines. Checks.Deployment: contracts/verify_deployment.py, where verdict is the body of
--   main; child Exit. Checks.Arc56: contracts/verify_client_matches_arc56.py; children Exit,
--   Implied. Checks.Pinned: sdk/ci/verify_pinned_digest.py; children Order, Exit.
--
-- - Reviewer: sdk/examples/verify_trelyan.py, with the counters PASS, FAIL and NOT_CHECKED as
--   Tally and a Script as a part that moves them and may raise. check_package, check_golden,
--   check_app, check_boxes and check_record are its sections [1] to [5]. Children: Clean (parts
--   that count no failure and skip nothing), Parts, Package and Boxes (what a clean run of each
--   section says), Exit, Honest (a node that serves the boxes of the contract).
-- - Examples: sdk/examples/quickstart.py (quickstart) and sdk/examples/interop_algo_pqc_kit.py
--   (interop), each split behind the deployed client. Child: Written.
-- - Scripts: scripts/deploy_testnet_fresh.py, scripts/deploy_testnet_secure.py and
--   contracts/require_testnet_deploy_secret.py: find_falcon_lib, the main of each (fresh_main,
--   secure_main, secret_main) and the polling loop is_funded, whose fuel is the limit of 120
--   rounds. Child: Launch.
--
-- The parts interact as follows: the SDK builds with Message.build_message the bytes that the
-- contract rebuilds with Contract.build_message, and reads the boxes by the names of
-- Message.box_refs. Client and Deploy, and Examples through Client, send the calls of Contract
-- over a Ledger, in the monad of Machine, signed by Falcon. The contract runs inside a delivery,
-- so what they leave on the chain is what Contract computes, for every list of deliveries.
--
-- What the code does not implement is an argument. Chain holds what is fixed for one
-- application: its id, the genesis hash and the opcode falcon_verify. Context holds what one
-- call reads of the ledger: sender, round, parameters and holdings of assets, and whether the
-- budget is paid. A uint64 is a natural number, with the check or the failure on overflow
-- written out.
--
-- The Falcon C library is the record Library: a return code with what the call writes; IsCorrect
-- is the assumption that it works, which Seal.Completes, Seal.Spawned and Falcon.Default take.
-- System says which path loads a library and whether pages can be pinned; the randomness is the
-- list of contexts in World. SealStore is the protocol with three laws: a recorded cell is
-- sealed, the others are as they were, and a store that raises is as it was. The record Json is
-- json.dumps and json.load, with the assumption that what was dumped loads; Os says which calls
-- on files succeed. A key's buffer is known by its address and holds exactly the bytes last
-- written; copies that the C library or the system may keep are outside.
--
-- Not modelled: the bytes of ABI arguments, the fees and the balances, the Falcon C library and
-- its Rust port, the generated client, and what the scripts print.
pub mod Prelude
pub mod Exceptions
pub mod Message
pub mod Contract
pub mod Machine
pub mod Falcon
pub mod Seal
pub mod Ledger
pub mod Client
pub mod Deploy
pub mod Checks
pub mod Scripts
pub mod Reviewer
pub mod Examples
