-- ===== src/Prover/Submit.antt =====
-- `SubmitProof` and `UpdateRoot` of zk-bridge/pkg/prover/prover.go. go-ethereum's client, keys and
-- transaction senders are parameters. A proof file is its content: its JSON text is left out.
pub mod Laws
use zk_cosmos_eth_bridge.Common.{
  ℕ, zero, suc, ◌+◌, ◌-◌, ◌*◌, ◌^◌, Bool, true, false, ◌&&◌, Option, none, some, List, [], ◌∷◌, ltb,
  ◌==◌, if◌then◌else◌, Bytes, Outcome, ok, err, panic, ◌>>=◌, ◌>>◌,
}
use zk_cosmos_eth_bridge.Common.Int.{ℤ, pos, negsuc}
use zk_cosmos_eth_bridge.Codec.Decimal.{whole_number}
use zk_cosmos_eth_bridge.Prover.Generate.{ProofFile}
use zk_cosmos_eth_bridge.Prover.Lock.{EthCommon}

abbrev pub negated : ℕ → ℤ
negated zero = pos 0
negated (suc n) = negsuc n

abbrev pub map_number : (ℕ → ℤ) → Option ℕ → Option ℤ
map_number f none = none
map_number f (some n) = some (f n)

-- `new(big.Int).SetString(s, 10)`, where none is the nil pointer.
unfoldable pub set_string : Bytes → Option ℤ
unfolding whole_number
set_string [] = none
set_string (c ∷ s) =
    if c == b'-'
    then map_number negated (whole_number s)
    else if c == b'+'
    then map_number pos (whole_number s)
    else map_number pos (whole_number (c ∷ s))

-- Go's conversion of a uint64 to an int64.
abbrev pub int64_of : ℕ → ℤ
int64_of n = if ltb n (2 ^ 63) then pos n else negsuc (2 ^ 64 - 1 - n)

-- `bind.TransactOpts`: an absent nonce or price is left to the sender, a limit of 0 too.
pub record TransactOpts : Type 0 where
  pub from : Bytes
  pub nonce : Option ℤ
  pub value : ℤ
  pub gas_limit : ℕ
  pub gas_price : Option ℕ

-- The arguments of `mint` in the order of the ABI; a nil number is none.
pub record MintArgs : Type 0 where
  pub a : Option ℤ × Option ℤ
  pub b : (Option ℤ × Option ℤ) × (Option ℤ × Option ℤ)
  pub c : Option ℤ × Option ℤ
  pub commitments : Option ℤ × Option ℤ
  pub commitment_pok : Option ℤ × Option ℤ
  pub root : Bytes
  pub lock_tx_hash : Bytes
  pub recipient : Bytes
  pub amount : ℕ

pub data Method : Type 0 where
  mint_method : MintArgs → Method
  update_trusted_root_method : Bytes → Method

-- What `contract.Transact` is given.
pub record Transaction : Type 0 where
  pub opts : Option TransactOpts
  pub contract : Bytes
  pub method : Method

pub data SubmitError : Type 0 where
  eth_dial_failed transact_failed : SubmitError
  not_mined : Transaction → SubmitError

-- The Ethereum node and go-ethereum's keys; a call whose error the code drops gives none.
pub record EthNode (Key : Type 0) : Type 0 where
  pub dials : Bytes → Bool
  pub hex_to_ecdsa : Bytes → Option Key
  pub pubkey_to_address : Key → Bytes
  pub pending_nonce_at : Bytes → Option ℕ
  pub suggest_gas_price : Option ℕ
  pub chain_id : Option ℕ
  pub new_keyed_transactor : Option Key → Option ℕ → Outcome SubmitError (Option TransactOpts)
  -- go-ethereum may panic, on nil options or a nil number
  pub transact : Transaction → Outcome SubmitError (Unit {0})
  pub wait_mined : Transaction → Bool

-- The struct that `json.Unmarshal` fills; without a file that it can read, its texts are empty.
abbrev pub no_file : ProofFile
no_file = record {
  a = ([], []);
  b = ([], [], [], []);
  c = ([], []);
  commitments = ([], []);
  commitment_pok = ([], []);
  public_inputs = [];
}

abbrev pub or_no_file : Option ProofFile → ProofFile
or_no_file none = no_file
or_no_file (some p) = p

abbrev pub or_zero : Option ℕ → ℕ
or_zero none = 0
or_zero (some n) = n

abbrev pub set_pair : Bytes × Bytes → Option ℤ × Option ℤ
set_pair p = (set_string p.0, set_string p.1)

abbrev pub dialed : Bool → Outcome SubmitError (Unit {0})
dialed true = ok tt
dialed false = err eth_dial_failed

-- A nil pointer that is used.
abbrev pub deref {ℓ} : {A : Type ℓ} → Option A → Outcome SubmitError A
deref none = panic
deref (some a) = ok a

unfoldable pub mint_args : EthCommon → ProofFile → Bytes → Bytes → Bytes → ℕ → MintArgs
unfolding set_string
mint_args eth p root tx_hash recipient amount = record {
  a = set_pair p.a;
  b = (set_pair (p.b.0, p.b.1), set_pair (p.b.2, p.b.3));
  c = set_pair p.c;
  commitments = set_pair p.commitments;
  commitment_pok = set_pair p.commitment_pok;
  root = root;
  lock_tx_hash = tx_hash;
  recipient = eth.hex_to_address recipient;
  amount = amount;
}

module _ {Key : Type 0} (eth : EthCommon) (node : EthNode Key) where
  -- Sends a transaction: the result is what was sent.
  abbrev pub send : Transaction → Outcome SubmitError Transaction
  send tx = node.transact tx >>= λ _. ok tx

  -- The options that `SubmitProof` sets on what the transactor gave.
  abbrev pub submit_opts : Key → TransactOpts → TransactOpts
  submit_opts private_key auth = record {
    from = auth.from;
    nonce = some (int64_of (or_zero (node.pending_nonce_at (node.pubkey_to_address private_key))));
    value = pos 0;
    gas_limit = 1500000;
    gas_price = node.suggest_gas_price;
  }

  unfoldable pub submit_proof :
      Bytes
      → Bytes
      → Bytes
      → Bytes
      → ℕ
      → Bytes
      → Bytes
      → Option ProofFile
      → Outcome SubmitError Transaction
  submit_proof eth_rpc_url priv_key_hex bridge_addr recipient amount root tx_hash proof_data = do
    dialed (node.dials eth_rpc_url)
    private_key ← deref (node.hex_to_ecdsa priv_key_hex)
    transactor ← node.new_keyed_transactor (some private_key) node.chain_id
    auth ← deref transactor
    send (record {
      opts = some (submit_opts private_key auth);
      contract = eth.hex_to_address bridge_addr;
      method = mint_method (mint_args eth (or_no_file proof_data) root tx_hash recipient amount);
    })

  -- Waiting may fail for a transaction that was sent.
  unfoldable pub update_root : Bytes → Bytes → Bytes → Bytes → Outcome SubmitError Transaction
  update_root eth_rpc_url priv_key_hex bridge_addr new_root = do
    dialed (node.dials eth_rpc_url)
    transactor ← node.new_keyed_transactor (node.hex_to_ecdsa priv_key_hex) node.chain_id
    tx ← send (record {
      opts = transactor;
      contract = eth.hex_to_address bridge_addr;
      method = update_trusted_root_method new_root;
    })
    if node.wait_mined tx then ok tx else err (not_mined tx)
