-- ===== src/Prover/Submit/Laws.antt =====
-- What `SubmitProof` of zk-bridge/pkg/prover/prover.go sends.
use zk_cosmos_eth_bridge.Common.{
  ℕ, ◌≡◌, refl, ap, ◌∙◌, true, false, Option, some, List, [], ◌∷◌, arith, Bytes, text_eq, map, ◌++◌,
  ok,
}
use zk_cosmos_eth_bridge.Common.Int.{ℤ, pos}
use zk_cosmos_eth_bridge.Codec.Decimal.{
  whole_number, decimal, digits_value, is_digit, all_digits, decimal_shape,
}
use zk_cosmos_eth_bridge.Prover.Generate.{E2, ProofPoints, ProofFile, export_file}
use zk_cosmos_eth_bridge.Circuit.Define.{ZkBridgeCircuit}
use zk_cosmos_eth_bridge.Prover.Lock.{EthCommon}
use zk_cosmos_eth_bridge.Prover.Submit.{
  submit_opts, mint_method, set_string, TransactOpts, MintArgs, Transaction, EthNode, mint_args,
  submit_proof,
}

set_string-digits :
    (c : ℕ) (r : Bytes)
    → is_digit c ≡ true
    → all_digits (c ∷ r) ≡ true
    → set_string (c ∷ r) ≡ some (pos (digits_value 0 (c ∷ r)))
unfolding set_string whole_number
set_string-digits c r digit all = ground (arith, digit, all)

-- A printed number is read back by `SetString`.
pub set_string-decimal : (n : ℕ) → set_string (decimal n) ≡ some (pos n)
set_string-decimal n =
    let (c, r, shape, digit, all, value) = decimal_shape n in
    ap set_string shape ∙ set_string-digits c r digit all ∙ ap (λ v. some (pos v)) value

abbrev pub decimals : ℕ × ℕ → Bytes × Bytes
decimals p = (decimal p.0, decimal p.1)

abbrev pub numbers : ℕ × ℕ → Option ℤ × Option ℤ
numbers p = (some (pos p.0), some (pos p.1))

-- The coordinates of a proof as numbers: Ar, the two of Bs, Krs, the first commitment, the PoK. The
-- contract takes the two parts of a coordinate of Bs in the other order.
pub record Coordinates : Type 0 where
  pub ar : ℕ × ℕ
  pub bs_x : E2 ℕ
  pub bs_y : E2 ℕ
  pub krs : ℕ × ℕ
  pub commitment : ℕ × ℕ
  pub commitment_pok : ℕ × ℕ

abbrev pub file_of : Coordinates → List Bytes → ProofFile
file_of p inputs = record {
  a = decimals p.ar;
  b = (decimal p.bs_x.a1, decimal p.bs_x.a0, decimal p.bs_y.a1, decimal p.bs_y.a0);
  c = decimals p.krs;
  commitments = decimals p.commitment;
  commitment_pok = decimals p.commitment_pok;
  public_inputs = inputs;
}

abbrev pub args_of : Coordinates → Bytes → Bytes → Bytes → ℕ → MintArgs
args_of p root tx_hash recipient amount = record {
  a = numbers p.ar;
  b = (numbers (p.bs_x.a1, p.bs_x.a0), numbers (p.bs_y.a1, p.bs_y.a0));
  c = numbers p.krs;
  commitments = numbers p.commitment;
  commitment_pok = numbers p.commitment_pok;
  root = root;
  lock_tx_hash = tx_hash;
  recipient = recipient;
  amount = amount;
}

mint_args-file_of :
    (eth : EthCommon) (p : Coordinates) (inputs : List Bytes) (root tx_hash recipient : Bytes)
    (amount : ℕ)
    → mint_args eth (file_of p inputs) root tx_hash recipient amount
      ≡ args_of p root tx_hash (eth.hex_to_address recipient) amount
unfolding mint_args
mint_args-file_of eth p inputs root tx_hash recipient amount = simp (set_string-decimal) refl

-- The texts that `GenerateProof` takes from a proof with these coordinates.
abbrev pub points_of : Coordinates → List (Bytes × Bytes) → ProofPoints
points_of p more = record {
  ar = decimals p.ar;
  bs_x = record { a0 = decimal p.bs_x.a0; a1 = decimal p.bs_x.a1 };
  bs_y = record { a0 = decimal p.bs_y.a0; a1 = decimal p.bs_y.a1 };
  krs = decimals p.krs;
  commitments = decimals p.commitment ∷ more;
  commitment_pok = decimals p.commitment_pok;
}

decimal_not_empty : (n : ℕ) → text_eq (decimal n) [] ≡ false
decimal_not_empty n = let (c, r, shape, _, _, _) = decimal_shape n in ap (λ s. text_eq s []) shape

export_file-points_of :
    (p : Coordinates) (more : List (Bytes × Bytes)) (w : ZkBridgeCircuit)
    → export_file (points_of p more) w
      ≡ file_of p (map decimal w.packed_root ++ map decimal w.packed_tx_hash)
unfolding export_file
export_file-points_of p more w = ground (arith, decimal_not_empty p.commitment_pok.0)

module _ {Key : Type 0} (eth : EthCommon) (node : EthNode Key) where
  -- The transaction that mints with these coordinates.
  abbrev pub mint_transaction :
      Coordinates → Key → TransactOpts → Bytes → Bytes → Bytes → Bytes → ℕ → Transaction
  mint_transaction p key auth bridge_addr root tx_hash recipient amount = record {
    opts = some (submit_opts eth node key auth);
    contract = eth.hex_to_address bridge_addr;
    method = mint_method (args_of p root tx_hash (eth.hex_to_address recipient) amount);
  }

  -- `SubmitProof` with a file that `GenerateProof` wrote, of a proof with a commitment, sends one
  -- `mint` to the bridge: the coordinates of the proof, the root, the hash, the recipient's
  -- address and the amount. The node is reached, the key is read, the transactor is made and the
  -- node takes the transaction.
  pub submit_proof-export_file :
      (p : Coordinates) (more : List (Bytes × Bytes)) (w : ZkBridgeCircuit)
      → (eth_rpc_url priv_key_hex bridge_addr recipient root tx_hash : Bytes) (amount : ℕ)
        (key : Key) (auth : TransactOpts)
      → node.dials eth_rpc_url ≡ true
      → node.hex_to_ecdsa priv_key_hex ≡ some key
      → node.new_keyed_transactor (some key) node.chain_id ≡ ok (some auth)
      → node.transact (mint_transaction p key auth bridge_addr root tx_hash recipient amount)
        ≡ ok tt
      → submit_proof eth node eth_rpc_url priv_key_hex bridge_addr recipient amount root tx_hash
          (some (export_file (points_of p more) w))
        ≡ ok (mint_transaction p key auth bridge_addr root tx_hash recipient amount)
  unfolding submit_proof
  submit_proof-export_file p more w eth_rpc_url priv_key_hex bridge_addr recipient root tx_hash
        amount key auth dials parsed made taken =
      let args : mint_args eth (export_file (points_of p more) w) root tx_hash recipient amount
          ≡ args_of p root tx_hash (eth.hex_to_address recipient) amount =
        ap (λ f. mint_args eth f root tx_hash recipient amount) (export_file-points_of p more w)
        ∙ mint_args-file_of eth p (map decimal w.packed_root ++ map decimal w.packed_tx_hash) root
            tx_hash recipient amount in
      rw (dials, parsed, made, args, taken) refl
