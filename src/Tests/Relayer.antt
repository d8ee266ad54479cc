-- ===== src/Tests/Relayer.antt =====
-- A run of the relayer on a transaction that locked 1000 wei.
use zk_cosmos_eth_bridge.Common.{
  ℕ, ◌≡◌, refl, true, Option, none, some, [], ◌∷◌, ◌==◌, if◌then◌else◌, arith, Bytes, codes,
  replicate, Outcome, ok, err,
}
use zk_cosmos_eth_bridge.Common.Int.{ℤ, pos}
use zk_cosmos_eth_bridge.Codec.Hex.{hex_encode, hex_decode}
use zk_cosmos_eth_bridge.Codec.Base64.{base64_decode}
use zk_cosmos_eth_bridge.Codec.BigEndian.{be_value, pack_words}
use zk_cosmos_eth_bridge.Codec.Decimal.{digits_onto, decimal, digits_value, sscanf_int}
use zk_cosmos_eth_bridge.Rpc.Types.{TxResponse}
use zk_cosmos_eth_bridge.Rpc.Client.{
  Node, RpcError, request_failed, new_cosmos_client, get_tx_details,
}
use zk_cosmos_eth_bridge.Rpc.Hash.{decode_trimmed, decode_hash}
use zk_cosmos_eth_bridge.Rpc.EvmHash.{
  decode_string_if_small, scan_events, scan_attributes, attribute_hash, hash_of, is_evm_type,
  is_hash_key, get_evm_hash,
}
use zk_cosmos_eth_bridge.Circuit.Api.{bits_of, bits_value}
use zk_cosmos_eth_bridge.Circuit.Define.{define}
use zk_cosmos_eth_bridge.Prover.Witness.{copy_32, leaf_index, proof_levels, make_witness}
use zk_cosmos_eth_bridge.Prover.Generate.{
  ProofFile, Generated, export_file, prove_and_export, generate_proof,
}
use zk_cosmos_eth_bridge.Prover.Lock.{is_lock, read_lock, scan_log, scan_logs, fetch_lock_details}
use zk_cosmos_eth_bridge.Prover.Submit.{
  TransactOpts, MintArgs, mint_method, update_trusted_root_method, Transaction, EthNode, set_string,
  mint_args, submit_proof, update_root,
}
use zk_cosmos_eth_bridge.Contracts.Source.{to_be, lock_log}
use zk_cosmos_eth_bridge.Relayer.{
  Settings, retry, sent, Relayed, output_path, prove_event, relay_proved, process_event,
}
use zk_cosmos_eth_bridge.Relayer.Relays.{IsRelayed, process_event_sound}
use zk_cosmos_eth_bridge.Relayer.Locked.{IsLocked, process_event_locked}
use zk_cosmos_eth_bridge.Tests.Data.{leaf, root, leaf_hex, sibling_hex, root_hex}
use zk_cosmos_eth_bridge.Tests.Prover.{response, node_of, toy_backend}
use zk_cosmos_eth_bridge.Tests.Rpc.{evm_event}
use zk_cosmos_eth_bridge.Tests.Contracts.{
  toy_eth, toy_eth-IsEthCommon, bridge, destination, empty_source, entry, after_lock, lock-entry,
  lock_topic, hex_encode-lock_topic, other_log, other_log-IsOther, evm_url, evm_node,
}

abbrev pub settings : Settings
settings = record {
  cosmos_ws_url = [];
  cosmos_rpc_url = [];
  cosmos_evm_rpc_url = evm_url;
  bridge_source_addr = bridge;
  ethereum_rpc_url = [];
  bridge_dest_addr = replicate 20 9;
  relayer_priv_key = codes "k";
}

abbrev pub auth : TransactOpts
auth = record {
  from = replicate 20 4;
  nonce = none;
  value = pos 0;
  gas_limit = 0;
  gas_price = none;
}

abbrev pub eth_node : EthNode ℕ
eth_node = record {
  dials = λ url. true;
  hex_to_ecdsa = λ text. some 11;
  pubkey_to_address = λ key. replicate 20 4;
  pending_nonce_at = λ from. some 3;
  suggest_gas_price = some 100;
  chain_id = some 1;
  new_keyed_transactor = λ key id. ok (some auth);
  transact = λ tx. ok tt;
  wait_mined = λ tx. true;
}

abbrev locking : TxResponse
locking = record (response root_hex leaf_hex (sibling_hex ∷ [])) { events = evm_event ∷ [] }

-- Two attempts fail before the transaction is indexed.
abbrev nodes : ℕ → Node
nodes i = if i == 2 then node_of locking else record { get = λ url. none; unmarshal = λ body. none }

abbrev attempt : ℕ → Outcome RpcError TxResponse
attempt i = if i == 2 then ok locking else err request_failed

found :
    retry (λ i. get_tx_details (nodes i) (new_cosmos_client []) (codes "AB")) 5 0 none
    ≡ some locking
unfolding retry get_tx_details
found = refl

abbrev evm_hash : Bytes
evm_hash = codes "0x0000000000000000000000000000000000000000000000000000000000000005"

locked : IsLocked toy_eth evm_node evm_url bridge (get_evm_hash locking) destination 1000
locked = record {
  msg_sender = replicate 20 3;
  before_lock = empty_source;
  after_lock = after_lock;
  entry = entry;
  taken = lock-entry;
  fits = omega arith;
  is_address = refl;
  lock_topic = lock_topic;
  is_topic = hex_encode-lock_topic;
  dials = refl;
  before = other_log ∷ [];
  after = [];
  receipt = refl;
  others = (other_log-IsOther, tt);
}

abbrev pub file : ProofFile
file = record {
  a = (codes "1", codes "2");
  b = (codes "3", codes "4", codes "5", codes "6");
  c = (codes "7", codes "8");
  commitments = (codes "0", codes "0");
  commitment_pok = (codes "9", codes "10");
  public_inputs =
      codes "504403158265495552"
      ∷ codes "0"
      ∷ codes "0"
      ∷ codes "0"
      ∷ codes "0"
      ∷ codes "0"
      ∷ codes "0"
      ∷ codes "5"
      ∷ [];
}

abbrev pub some_pos : ℕ → ℕ → Option ℤ × Option ℤ
some_pos a b = (some (pos a), some (pos b))

abbrev pub opts : TransactOpts
opts = record {
  from = replicate 20 4;
  nonce = some (pos 3);
  value = pos 0;
  gas_limit = 1500000;
  gas_price = some 100;
}

abbrev mint_tx : Transaction
mint_tx = record {
  opts = some opts;
  contract = replicate 20 9;
  method = mint_method (record {
    a = some_pos 1 2;
    b = (some_pos 3 4, some_pos 5 6);
    c = some_pos 7 8;
    commitments = some_pos 0 0;
    commitment_pok = some_pos 9 10;
    root = root;
    lock_tx_hash = leaf;
    recipient = destination;
    amount = 1000;
  });
}

abbrev pub root_tx : Transaction
root_tx = record {
  opts = some auth;
  contract = replicate 20 9;
  method = update_trusted_root_method root;
}

abbrev relayed : Relayed
relayed = record { synchronized = sent root_tx; submitted = sent mint_tx }

process_event-locking :
    process_event settings toy_eth toy_backend nodes
      (node_of locking)
      evm_node
      eth_node
      (codes "AB")
    ≡ ok relayed
unfolding process_event prove_event relay_proved retry get_tx_details get_evm_hash scan_events
    scan_attributes attribute_hash hash_of is_evm_type is_hash_key decode_string_if_small
    base64_decode fetch_lock_details scan_logs scan_log is_lock read_lock lock_log hex_encode
    be_value to_be submit_proof update_root mint_args set_string generate_proof decode_hash
    decode_trimmed hex_decode copy_32 leaf_index sscanf_int make_witness proof_levels pack_words
    prove_and_export export_file decimal define bits_of bits_value digits_onto digits_value
process_event-locking = refl

process_event_sound_example :
    IsRelayed settings toy_eth toy_backend nodes (node_of locking) evm_node (codes "AB") mint_tx
process_event_sound_example =
    process_event_sound settings toy_eth toy_backend nodes (node_of locking) evm_node eth_node
      (codes "AB") relayed mint_tx process_event-locking refl

process_event_locked_example :
    (g : Generated) × (args : MintArgs) × (generate_proof toy_backend
        (node_of locking)
        []
        (codes "AB")
        output_path
      ≡ ok g)
    × (mint_tx.contract ≡ replicate 20 9)
    × (mint_tx.method ≡ mint_method args)
    × (args.root ≡ g.root)
    × (args.lock_tx_hash ≡ g.tx)
    × (args.recipient ≡ destination)
    × (args.amount ≡ 1000)
process_event_locked_example =
    process_event_locked settings toy_eth toy_backend toy_eth-IsEthCommon nodes (node_of locking)
      evm_node eth_node (codes "AB") destination 1000 locking relayed mint_tx found locked
      process_event-locking refl
