-- ===== src/Tests/Contracts.antt =====
-- A lock of 1000 wei, its mint, and a second mint.
use zk_cosmos_eth_bridge.Common.{
  ℕ, ◌+◌, ◌^◌, ◌<◌, ◌≡◌, ◌↔◌, ◌⊎◌, refl, true, false, none, some, List, [], ◌∷◌, ◌++◌, ◌==◌, arith,
  Bytes, text_eq, codes, replicate, drop, if◌then◌else◌, All, IsByte, ok, err,
}
use zk_cosmos_eth_bridge.Codec.Hex.{hex_encode}
use zk_cosmos_eth_bridge.Codec.BigEndian.{be_value, pack_words}
use zk_cosmos_eth_bridge.Prover.Lock.{
  EthCommon, IsEthCommon, EvmNode, Log, lock_event_sig, is_lock, read_lock, scan_log, scan_logs,
  fetch_lock_details,
}
use zk_cosmos_eth_bridge.Contracts.Source.{SourceLock, SourceState, lock, to_be, lock_log}
use zk_cosmos_eth_bridge.Contracts.Source.Laws.{IsOther, is_other}
use zk_cosmos_eth_bridge.Contracts.Source.Fetch.{
  IsFirstLock, fetch_lock_details-lock, fetch_lock_details_sound,
}
use zk_cosmos_eth_bridge.Contracts.Destination.{
  Chain, DestinationState, MintCall, untrusted_block_root, transaction_already_processed, construct,
  mint, mark_and_mint, update_trusted_root, get_packed_inputs, done, then_step, minted,
  root_updated,
}
use zk_cosmos_eth_bridge.Contracts.Destination.Packing.{get_packed_inputs-pack_words}
use zk_cosmos_eth_bridge.Contracts.Destination.Mint.{Accepted, mint_iff, mint_unbound}
use zk_cosmos_eth_bridge.Contracts.Destination.Replay.{times_minted, times_minted-Steps, mint_once}
use zk_cosmos_eth_bridge.Tests.Data.{leaf, root}

-- Addresses print as themselves.
abbrev pub toy_eth : EthCommon
toy_eth = record {
  bytes_to_address = drop 12;
  address_hex = λ a. a;
  hex_to_address = λ a. a;
  hex_to_hash = λ h. h;
}

pub toy_eth-IsEthCommon : IsEthCommon toy_eth
toy_eth-IsEthCommon = record {
  bytes_to_address_lem = λ b h. refl;
  hex_to_address-address_hex = λ a h. refl;
}

abbrev pub bridge : Bytes
bridge = replicate 20 1

abbrev pub destination : Bytes
destination = replicate 20 2

abbrev pub empty_source : SourceState
empty_source = record { locks = λ n. none; next_nonce = 0 }

abbrev pub entry : SourceLock
entry = record { sender = replicate 20 3; amount = 1000; eth_destination = destination; nonce = 0 }

abbrev pub after_lock : SourceState
after_lock = record { locks = λ n. if n == 0 then some entry else none; next_nonce = 1 }

pub lock-entry : lock (replicate 20 3) 1000 destination empty_source ≡ some (after_lock, entry)
unfolding lock
lock-entry = refl

-- The topic of the event: the Keccak hash of its signature.
abbrev pub lock_topic : Bytes
lock_topic =
    182 ∷ 109 ∷ 173 ∷ 172 ∷ 49 ∷ 144 ∷ 115 ∷ 106 ∷ 201 ∷ 112 ∷ 201 ∷ 35 ∷ 95 ∷ 221 ∷ 4 ∷ 213 ∷ 149
    ∷ 252 ∷ 215 ∷ 120 ∷ 101 ∷ 239 ∷ 31 ∷ 32 ∷ 127 ∷ 140 ∷ 211 ∷ 20 ∷ 81 ∷ 101 ∷ 163 ∷ 36 ∷ []

pub hex_encode-lock_topic : hex_encode lock_topic ≡ lock_event_sig
unfolding hex_encode
hex_encode-lock_topic = refl

abbrev pub other_log : Log
other_log = record { topics = root ∷ []; address = bridge; log_data = [] }

pub other_log-IsOther : IsOther toy_eth bridge other_log
unfolding IsOther is_other is_lock hex_encode
other_log-IsOther = refl

abbrev pub evm_url : Bytes
evm_url = codes "http://evm"

abbrev pub evm_node : EvmNode
evm_node = record {
  dials = λ url. text_eq url evm_url;
  receipt_logs = λ url h. some (other_log ∷ lock_log bridge lock_topic entry ∷ []);
}

amount_fits : 1000 < 2 ^ 256
amount_fits = omega arith

fetch_lock_details-lock_example :
    fetch_lock_details toy_eth evm_node evm_url bridge (codes "ab")
    ≡ ok (record { recipient = destination; amount = 1000 })
fetch_lock_details-lock_example =
    fetch_lock_details-lock toy_eth bridge toy_eth-IsEthCommon evm_node evm_url (codes "ab")
      lock_topic (replicate 20 3) destination 1000 empty_source after_lock entry (other_log ∷ []) []
      lock-entry amount_fits refl hex_encode-lock_topic refl refl (other_log-IsOther, tt)

fetch_lock_details-evm_node :
    fetch_lock_details toy_eth evm_node evm_url bridge (codes "ab")
    ≡ ok (record { recipient = destination; amount = 1000 })
unfolding fetch_lock_details scan_logs scan_log is_lock read_lock lock_log hex_encode be_value to_be
fetch_lock_details-evm_node = refl

fetch_lock_details_sound_example :
    (logs : List Log) × (evm_node.receipt_logs evm_url (codes "ab") ≡ some logs)
    × IsFirstLock toy_eth bridge logs (record { recipient = destination; amount = 1000 })
fetch_lock_details_sound_example =
    fetch_lock_details_sound toy_eth bridge evm_node evm_url (codes "ab")
      (record { recipient = destination; amount = 1000 }) fetch_lock_details-evm_node

leaf_bytes : All IsByte leaf
leaf_bytes = ground arith

root_bytes : All IsByte root
root_bytes = ground arith

get_packed_inputs-pack_words_example :
    get_packed_inputs root leaf ≡ pack_words 4 root ++ pack_words 4 leaf
get_packed_inputs-pack_words_example =
    get_packed_inputs-pack_words root leaf refl refl root_bytes leaf_bytes

-- The verifier accepts every proof, and the tokens are their supply.
abbrev chain : Chain ℕ
chain = record {
  verify_proof = λ p c k inputs. true;
  erc20_mint = λ to amount supply. some (supply + amount);
}

abbrev call : MintCall
call = record {
  a = (1, 2);
  b = ((3, 4), (5, 6));
  c = (7, 8);
  commitments = (0, 0);
  commitment_pok = (9, 10);
  root = root;
  lock_tx_hash = leaf;
  recipient = destination;
  amount = 1000;
}

abbrev start : DestinationState ℕ
start = construct chain root 0

abbrev minted_once : DestinationState ℕ
minted_once = mark_and_mint chain call start 1000

mint-call : mint chain call start ≡ ok minted_once
unfolding mint construct mark_and_mint
mint-call = refl

mint_iff_example : (mint chain call start ≡ ok minted_once) ↔ Accepted chain call start minted_once
mint_iff_example = mint_iff chain call start minted_once

mint_once_example :
    (mint chain call (update_trusted_root chain leaf minted_once) ≡ err untrusted_block_root)
    ⊎ (mint chain call (update_trusted_root chain leaf minted_once)
        ≡ err transaction_already_processed)
mint_once_example =
    mint_once chain call call start minted_once (update_trusted_root chain leaf minted_once)
      mint-call (then_step done (root_updated leaf)) refl

times_minted-Steps_example :
    times_minted leaf minted_once.events ≡ (if minted_once.processed_txs leaf then 1 else 0)
times_minted-Steps_example =
    times_minted-Steps chain root 0 minted_once (then_step done (minted call mint-call)) leaf

fresh : start.processed_txs leaf ≡ false
unfolding construct
fresh = refl

abbrev stolen : MintCall
stolen = record {
  a = (1, 2);
  b = ((3, 4), (5, 6));
  c = (7, 8);
  commitments = (0, 0);
  commitment_pok = (9, 10);
  root = root;
  lock_tx_hash = leaf;
  recipient = bridge;
  amount = 999999;
}

paid : chain.erc20_mint bridge 999999 start.tokens ≡ some 999999
unfolding construct
paid = refl

mint_unbound_example :
    mint chain stolen (update_trusted_root chain root start)
    ≡ ok (mark_and_mint chain stolen (update_trusted_root chain root start) 999999)
mint_unbound_example = mint_unbound chain call start 999999 bridge 999999 fresh refl paid
