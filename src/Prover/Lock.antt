-- ===== src/Prover/Lock.antt =====
-- `FetchLockDetails` of zk-bridge/pkg/prover/prover.go.
use zk_cosmos_eth_bridge.Common.{
  ℕ, ◌≡◌, Bool, ◌&&◌, Option, none, some, List, [], ◌∷◌, if◌then◌else◌, ltb, Bytes, codes, text_eq,
  length, take, drop, Outcome, ok, err, panic, ◌>>=◌, or_err,
}
use zk_cosmos_eth_bridge.Codec.Hex.{hex_encode}
use zk_cosmos_eth_bridge.Codec.BigEndian.{be_value}

-- The address and hash conversions of go-ethereum's `common`.
pub record EthCommon : Type 0 where
  pub bytes_to_address : Bytes → Bytes
  pub address_hex : Bytes → Bytes
  pub hex_to_address : Bytes → Bytes
  pub hex_to_hash : Bytes → Bytes

-- What go-ethereum documents: the last 20 bytes make the address, and a printed address is read
-- back as itself.
pub record IsEthCommon (eth : EthCommon) : Type 0 where
  pub bytes_to_address_lem : (b : Bytes) → length b ≡ 32 → eth.bytes_to_address b ≡ drop 12 b
  pub hex_to_address-address_hex :
      (a : Bytes) → length a ≡ 20 → eth.hex_to_address (eth.address_hex a) ≡ a

pub record Log : Type 0 where
  pub topics : List Bytes
  pub address : Bytes
  pub log_data : Bytes

-- The EVM nodes by their addresses: whether one can be dialed, and the logs of a receipt that it has.
pub record EvmNode : Type 0 where
  pub dials : Bytes → Bool
  pub receipt_logs : Bytes → Bytes → Option (List Log)

pub data LockError : Type 0 where
  dial_failed receipt_missing lock_event_not_found : LockError

pub record LockDetails : Type 0 where
  pub recipient : Bytes
  pub amount : ℕ

abbrev pub lock_event_sig : Bytes
lock_event_sig = codes "b66dadac3190736ac970c9235fdd04d595fcd77865ef1f207f8cd3145165a324"

module _ (eth : EthCommon) where
  -- `Data[0:32]` and `Data[32:64]` panic where the data is shorter.
  unfoldable pub read_lock : Bytes → Outcome LockError LockDetails
  unfolding be_value
  read_lock log_data =
      if ltb (length log_data) 64
      then panic
      else ok (record {
        recipient = eth.address_hex (eth.bytes_to_address (take 32 (drop 32 log_data)));
        amount = be_value 0 (take 32 log_data);
      })

  -- Whether a log with this first topic is the bridge's lock event.
  unfoldable pub is_lock : Bytes → Bytes → Log → Bool
  unfolding hex_encode
  is_lock bridge_addr topic v_log =
      text_eq (hex_encode topic) lock_event_sig
      && text_eq v_log.address (eth.hex_to_address bridge_addr)

  -- `vLog.Topics[0]` panics on a log without topics.
  unfoldable pub scan_log :
      Bytes → List Bytes → Log → Outcome LockError LockDetails → Outcome LockError LockDetails
  scan_log bridge_addr [] v_log rest = panic
  scan_log bridge_addr (topic ∷ topics) v_log rest =
      if is_lock bridge_addr topic v_log then read_lock v_log.log_data else rest

  unfoldable pub scan_logs : Bytes → List Log → Outcome LockError LockDetails
  scan_logs bridge_addr [] = err lock_event_not_found
  scan_logs bridge_addr (v_log ∷ logs) =
      let rest = scan_logs bridge_addr logs in scan_log bridge_addr v_log.topics v_log rest

  unfoldable pub fetch_lock_details :
      EvmNode → Bytes → Bytes → Bytes → Outcome LockError LockDetails
  fetch_lock_details node evm_rpc_url bridge_addr tx_hash_hex = do
    logs ←
        or_err
          (if node.dials evm_rpc_url
            then some (node.receipt_logs evm_rpc_url (eth.hex_to_hash tx_hash_hex))
            else none)
          dial_failed
    found ← or_err logs receipt_missing
    scan_logs bridge_addr found
