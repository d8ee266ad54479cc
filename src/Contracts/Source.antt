-- ===== src/Contracts/Source.antt =====
-- zk-bridge/contracts/BridgeSource.sol, and the log of its `Lock` event.
pub mod Laws
pub mod Fetch
use zk_cosmos_eth_bridge.Common.{
  ℕ, zero, suc, ◌+◌, ◌/◌, ◌%◌, ◌^◌, Option, none, some, List, [], ◌∷◌, ◌++◌, ltb, ◌==◌,
  if◌then◌else◌, Bytes, replicate,
}
use zk_cosmos_eth_bridge.Prover.Lock.{Log}

-- `LockDetails` of the contract, which is also the content of the event.
pub record SourceLock : Type 0 where
  pub sender : Bytes
  pub amount : ℕ
  pub eth_destination : Bytes
  pub nonce : ℕ

pub record SourceState : Type 0 where
  pub locks : ℕ → Option SourceLock
  pub next_nonce : ℕ

-- `lock`: reverts without a value, and at the last nonce (the increment is checked).
unfoldable pub lock : Bytes → ℕ → Bytes → SourceState → Option (SourceState × SourceLock)
lock msg_sender msg_value eth_destination s =
    let details : SourceLock = record {
      sender = msg_sender;
      amount = msg_value;
      eth_destination = eth_destination;
      nonce = s.next_nonce;
    } in
    if ltb 0 msg_value
    then (if ltb (s.next_nonce + 1) (2 ^ 256)
        then some (
          record {
            locks = λ n. if n == s.next_nonce then some details else s.locks n;
            next_nonce = s.next_nonce + 1;
          },
          details,
        )
        else none)
    else none

-- The `n` bytes of a number, the highest first: how the ABI encodes a `uint` of `n` bytes.
unfoldable pub to_be : ℕ → ℕ → Bytes
to_be zero v = []
to_be (suc n) v = to_be n (v / 256) ++ (v % 256 ∷ [])

-- The ABI encoding of an address: 32 bytes.
abbrev pub address_word : Bytes → Bytes
address_word a = replicate 12 0 ++ a

-- The log of `emit Lock(...)`: the sender is indexed, and the other three are the data.
unfoldable pub lock_log : Bytes → Bytes → SourceLock → Log
unfolding to_be
lock_log contract_address lock_topic l = record {
  topics = lock_topic ∷ address_word l.sender ∷ [];
  address = contract_address;
  log_data = to_be 32 l.amount ++ (address_word l.eth_destination ++ to_be 32 l.nonce);
}
