-- ===== src/Deploy.antt =====
-- zk-bridge/cmd/deployer/main.go.
use zk_cosmos_eth_bridge.Common.{
  ◌≢◌, Bool, Option, none, some, [], ◌∷◌, if◌then◌else◌, arith, Bytes, codes, text_eq, Bool-cases,
  inl, inr, Outcome, ok, err, panic, ◌>>=◌, or_err,
}
use zk_cosmos_eth_bridge.Prover.Witness.Laws.{bind-eq-ok}

pub data DeployError : Type 0 where
  no_key not_dialed no_verifier_file verifier_needs_bytecode source_needs_bytecode
        destination_needs_bytecode :
      DeployError

-- What the libraries and the file system give.
pub record DeployCalls (Client Key Chain Auth : Type 0) : Type 0 where
  pub dial : Bytes → Option Client
  pub hex_to_ecdsa : Bytes → Option Key
  pub chain_id : Client → Option Chain
  pub keyed_transactor : Key → Option Chain → Option Auth
  pub has_verifier_file : Bool

abbrev pub or_panic : {A : Type 0} → Option A → Outcome DeployError A
or_panic none = panic
or_panic (some a) = ok a

abbrev pub key_or_fatal : Bytes → Outcome DeployError Bytes
key_or_fatal [] = err no_key
key_or_fatal (c ∷ s) = ok (c ∷ s)

-- The addresses of the contracts.
pub record Deployed : Type 0 where
  pub verifier : Bytes
  pub source : Bytes
  pub destination : Bytes

module _ {Client Key Chain Auth : Type 0} (calls : DeployCalls Client Key Chain Auth) where
  unfoldable pub deploy_verifier : Client → Auth → Outcome DeployError Bytes
  deploy_verifier client auth =
      if calls.has_verifier_file then err verifier_needs_bytecode else err no_verifier_file

  unfoldable pub deploy_bridge_source : Client → Auth → Outcome DeployError Bytes
  deploy_bridge_source client auth = err source_needs_bytecode

  unfoldable pub deploy_bridge_destination : Client → Auth → Bytes → Outcome DeployError Bytes
  deploy_bridge_destination client auth verifier_addr = err destination_needs_bytecode

  abbrev pub rpc_or_default : Bytes → Bytes
  rpc_or_default url = if text_eq url [] then codes "http://localhost:8545" else url

  -- `main`, of the variables of the environment. The errors of the key, the chain and the transactor
  -- are dropped: a key or a transactor that is nil is used, and the chain may be nil.
  unfoldable pub deploy : (Bytes → Bytes) → Outcome DeployError Deployed
  unfolding deploy_verifier deploy_bridge_source deploy_bridge_destination
  deploy get_env = do
    key_hex ← key_or_fatal (get_env (codes "RELAYER_PRIV_KEY"))
    client ← or_err (calls.dial (rpc_or_default (get_env (codes "ETHEREUM_RPC_URL")))) not_dialed
    key ← or_panic (calls.hex_to_ecdsa key_hex)
    auth ← or_panic (calls.keyed_transactor key (calls.chain_id client))
    verifier ← deploy_verifier client auth
    source ← deploy_bridge_source client auth
    destination ← deploy_bridge_destination client auth verifier
    ok (record { verifier = verifier; source = source; destination = destination })

  deploy_verifier-eq-ok :
      (client : Client) (auth : Auth) (a : Bytes) → deploy_verifier client auth ≢ ok a
  unfolding deploy_verifier
  deploy_verifier-eq-ok client auth a h = elim (Bool-cases calls.has_verifier_file) [
    | inl e ↦ ground (arith, e, h)
    | inr e ↦ ground (arith, e, h)
  ]

  -- Whatever the environment, the key and the node are, no contract is deployed.
  pub deploy_never : (get_env : Bytes → Bytes) (d : Deployed) → deploy get_env ≢ ok d
  unfolding deploy
  deploy_never get_env d h =
      let (key_hex, _, h1) = bind-eq-ok (key_or_fatal (get_env (codes "RELAYER_PRIV_KEY"))) _ h in
      let url = rpc_or_default (get_env (codes "ETHEREUM_RPC_URL")) in
      let (client, _, h2) = bind-eq-ok (or_err (calls.dial url) not_dialed) _ h1 in
      let (key, _, h3) = bind-eq-ok (or_panic (calls.hex_to_ecdsa key_hex)) _ h2 in
      let (auth, _, h4) =
        bind-eq-ok (or_panic (calls.keyed_transactor key (calls.chain_id client))) _ h3 in
      let (verifier, made, _) = bind-eq-ok (deploy_verifier client auth) _ h4 in
      deploy_verifier-eq-ok client auth verifier made
