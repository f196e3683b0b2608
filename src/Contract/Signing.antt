-- ===== src/Contract/Signing.antt =====
-- What a signature authorises: the message that the contract rebuilds is the one that the off-chain
-- builders sign, and an inscription records what the holder of the committed key asked for.
use trelyan_falcon_inscripti.Prelude.{true, ℕ, ◌^◌, ◌<◌, ◌≡◌, refl, some, length, arith}
use trelyan_falcon_inscripti.Prelude.Bytes.{Bytes}
use trelyan_falcon_inscripti.Prelude.BoxMap.{lookup}
use trelyan_falcon_inscripti.Prelude.Result.{ok}
use trelyan_falcon_inscripti.Message
use trelyan_falcon_inscripti.Message.{PyValue, int, nonneg, as_int}
use trelyan_falcon_inscripti.Message.Layout.{layout, build_message_exactly, layout-injective}
use trelyan_falcon_inscripti.Contract.{
  Chain, Context, State, InscriptionRecord, init, create, build_message,
}
use trelyan_falcon_inscripti.Contract.Trace.{Run}
use trelyan_falcon_inscripti.Contract.Invariant.{Run-IsValid}

-- For ids in the range of a uint64, an artifact hash and a genesis hash of 32 bytes, the builder of
-- message.py returns the very bytes that `_build_message` of the contract rebuilds.
pub signed_message_agrees :
    (chain : Chain) (cid : ℕ) (hash : Bytes)
    → chain.app_id < 2 ^ 64
    → cid < 2 ^ 64
    → length hash ≡ 32
    → length chain.genesis_hash ≡ 32
    → Message.build_message (int (nonneg chain.app_id)) (int (nonneg cid)) hash chain.genesis_hash
      ≡ ok (build_message chain cid hash)
unfolding build_message
signed_message_agrees chain cid hash ha hc hh hg =
    (build_message_exactly (int (nonneg chain.app_id)) (int (nonneg cid)) hash chain.genesis_hash
        _).1
      (
        chain.app_id,
        cid,
        record {
          app = refl;
          cell = (refl, refl);
          app_fits = ha;
          cell_fits = hc;
          hash_len = hh;
          genesis_len = hg;
        },
        refl,
      )

-- The four parts that a key holder asks to be signed.
pub record Request : Type 0 where
  pub app_id : ℕ
  pub cell_id : ℕ
  pub artifact_hash : Bytes
  pub genesis_hash : Bytes

-- A request whose parts have the sizes that the builders let through.
pub record IsRequest (q : Request) : Type 0 where
  pub app_fits : q.app_id < 2 ^ 64
  pub cell_fits : q.cell_id < 2 ^ 64
  pub hash_len : length q.artifact_hash ≡ 32
  pub genesis_len : length q.genesis_hash ≡ 32

abbrev pub message_of : Request → Bytes
message_of q = layout q.app_id q.cell_id q.artifact_hash q.genesis_hash

-- If every message that falcon_verify accepts under a key is the message of a request that its holder
-- made (no forgery), then an inscription of a cell that committed this key records a request that the
-- holder made for this application, this cell and this network: `Asked` holds of it.
pub inscription_authentic {ℓ} :
    (chain : Chain) (ctx : Context) (s : State) (cid : ℕ) (key : Bytes) (r : InscriptionRecord)
    (Asked : Request → Type ℓ)
    → ((m sig : Bytes)
        → chain.falcon_verify m sig key ≡ true
        → (q : Request) × Asked q × IsRequest q × (m ≡ message_of q))
    → chain.app_id < 2 ^ 64
    → cid < 2 ^ 64
    → Run chain (create ctx init) s
    → lookup cid s.committed_pubkey ≡ some key
    → lookup cid s.inscriptions ≡ some r
    → Asked (record {
      app_id = chain.app_id;
      cell_id = cid;
      artifact_hash = r.artifact_hash;
      genesis_hash = chain.genesis_hash;
    })
unfolding build_message
inscription_authentic chain ctx s cid key r Asked genuine ha hc run hk hr =
    let v = (Run-IsValid chain ctx s run).verifiable cid r hr in
    let (k, sig, found, _, accepted) = v.signature in
    let same : k ≡ key = cc (found, hk) in
    let (q, asked, sized, em) = genuine _ sig (rw same at accepted) in
    let (e1, e2, e3, e4) =
      layout-injective chain.app_id cid q.app_id q.cell_id r.artifact_hash chain.genesis_hash
        q.artifact_hash q.genesis_hash ha sized.app_fits hc sized.cell_fits
        (omega (arith, v.hash_length, sized.hash_len)) em in
    rw (e1, e2, e3, e4) asked
