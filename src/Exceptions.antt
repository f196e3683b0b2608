-- ===== src/Exceptions.antt =====
-- The exceptions that sdk/src/trelyan_pq, contracts/falcon_det1024.py, the deployment scripts and the
-- examples raise, told apart by the `raise` statement (or the library call) that they come from.
pub data Exception : Type 0 where
  -- ValueError of message.py and of the message builder of contracts/falcon_det1024.py
  bad_app_id bad_cell_id bad_artifact_hash bad_genesis_hash : Exception
  -- AssertionError "internal: message length drift"
  length_drift : Exception
  -- ValueError of falcon.py, on the length of a key
  bad_privkey_length bad_pubkey_length : Exception
  -- RuntimeError of falcon.py
  lib_not_set lib_not_loaded no_rng keygen_failed sign_failed : Exception
  -- AssertionError of `sign`, and the IndexError of reading the first byte of no bytes
  unexpected_header index_error : Exception
  -- seal.py
  cell_already_sealed seal_verification_error : Exception
  -- what the store of seal.py raises: an OSError, or a file that is no JSON list of numbers
  store_error : Exception
  -- TimeoutExpired of the isolated signer, and a reply with a key that is missing or no hex
  timed_out bad_reply : Exception
  -- what the calls of the Algorand SDK raise: no answer from the node, whether or not the transaction
  -- landed, and a transaction that the contract rejected
  connection_failed call_rejected : Exception
  -- inscription.py: ValueError on the length of a hash, text that is no base64, and a bad mnemonic
  bad_hash_argument bad_base64 bad_mnemonic : Exception
  -- deploy_testnet.py: sys.exit with a message, for a missing mnemonic, a network that looks like
  -- MainNet and a node that is not TestNet's; and its two assertions
  no_mnemonic looks_like_mainnet not_testnet hash_mismatch reverify_failed : Exception
  -- the examples: SystemExit where the encodings count as reconciled, and what algo_pqc_kit raises
  not_reconciled no_account : Exception
