-- ===== src/Contracts/Source/Fetch.antt =====
-- `FetchLockDetails` of the relayer against the events of BridgeSource.sol.
use zk_cosmos_eth_bridge.Common.{
  ℕ, ◌^◌, ◌<◌, ◌≡◌, refl, ap, sym, ◌∙◌, Bool, true, false, Option, none, some, List, [], ◌∷◌, ◌++◌,
  arith, Bytes, All, Bool-cases, &&_split, ◌⊎◌, inl, inr, length, text_eq, text_eq_refl, text_eq→eq,
  Outcome, ok,
}
use zk_cosmos_eth_bridge.Codec.Hex.{hex_encode}
use zk_cosmos_eth_bridge.Prover.Lock.{
  EthCommon, IsEthCommon, Log, EvmNode, LockDetails, LockError, lock_event_sig, read_lock, is_lock,
  scan_log, scan_logs, fetch_lock_details,
}
use zk_cosmos_eth_bridge.Contracts.Source.{SourceLock, SourceState, lock, lock_log}
use zk_cosmos_eth_bridge.Contracts.Source.Laws.{
  IsOther, is_other, scan_logs-skip, read_lock-lock_log,
}

-- What a call of `lock` that does not revert records.
lock_records :
    (msg_sender : Bytes) (msg_value : ℕ) (eth_destination : Bytes) (s s' : SourceState)
    (l : SourceLock)
    → lock msg_sender msg_value eth_destination s ≡ some (s', l)
    → (l.amount ≡ msg_value) × (l.eth_destination ≡ eth_destination)
unfolding lock
lock_records msg_sender msg_value eth_destination s s' l h = (ground arith, ground arith)

module _ (eth : EthCommon) (bridge_addr : Bytes) where
  scan_log-lock_log :
      IsEthCommon eth
      → (lock_topic : Bytes) (l : SourceLock) (rest : Outcome LockError LockDetails)
      → hex_encode lock_topic ≡ lock_event_sig
      → l.amount < 2 ^ 256
      → length l.eth_destination ≡ 20
      → (let v_log : Log = lock_log (eth.hex_to_address bridge_addr) lock_topic l in
          scan_log eth bridge_addr v_log.topics v_log rest)
        ≡ ok (record { recipient = eth.address_hex l.eth_destination; amount = l.amount })
  unfolding scan_log lock_log is_lock
  scan_log-lock_log is_eth lock_topic l rest topic small h20 =
      let contract_address : Bytes = eth.hex_to_address bridge_addr in
      let same : text_eq (hex_encode lock_topic) lock_event_sig ≡ true =
        ap (λ t. text_eq t lock_event_sig) topic ∙ text_eq_refl lock_event_sig in
      ground (
        arith,
        same,
        text_eq_refl contract_address,
        read_lock-lock_log eth bridge_addr is_eth contract_address lock_topic l small h20,
      )

  fetch_lock_details-scan_logs :
      (node : EvmNode) (evm_rpc_url tx_hash_hex : Bytes) (found : List Log)
      → node.dials evm_rpc_url ≡ true
      → node.receipt_logs evm_rpc_url (eth.hex_to_hash tx_hash_hex) ≡ some found
      → fetch_lock_details eth node evm_rpc_url bridge_addr tx_hash_hex
        ≡ scan_logs eth bridge_addr found
  unfolding fetch_lock_details
  fetch_lock_details-scan_logs node evm_rpc_url tx_hash_hex found dials receipt =
      ground (arith, dials, receipt)

  -- Under go-ethereum's conversions, a lock that the contract takes, of an amount below 2^256 for
  -- an address of 20 bytes, is read back: the node is reached and has the receipt, whose logs have
  -- the contract's event, under the topic that is the signature, after others that have a topic
  -- and are not that event.
  pub fetch_lock_details-lock :
      IsEthCommon eth
      → (node : EvmNode) (evm_rpc_url tx_hash_hex lock_topic msg_sender eth_destination : Bytes)
        (msg_value : ℕ) (s s' : SourceState) (l : SourceLock) (before after : List Log)
      → lock msg_sender msg_value eth_destination s ≡ some (s', l)
      → msg_value < 2 ^ 256
      → length eth_destination ≡ 20
      → hex_encode lock_topic ≡ lock_event_sig
      → node.dials evm_rpc_url ≡ true
      → node.receipt_logs evm_rpc_url (eth.hex_to_hash tx_hash_hex)
        ≡ some (before ++ (lock_log (eth.hex_to_address bridge_addr) lock_topic l ∷ after))
      → All (IsOther eth bridge_addr) before
      → fetch_lock_details eth node evm_rpc_url bridge_addr tx_hash_hex
        ≡ ok (record { recipient = eth.address_hex eth_destination; amount = msg_value })
  unfolding scan_logs
  fetch_lock_details-lock is_eth node evm_rpc_url tx_hash_hex lock_topic msg_sender eth_destination
        msg_value s s' l before after took small h20 topic dials receipt others =
      let (amount_eq, dest_eq) = lock_records msg_sender msg_value eth_destination s s' l took in
      let small_l : l.amount < 2 ^ 256 = omega (arith, amount_eq) in
      let h20_l : length l.eth_destination ≡ 20 = ap length dest_eq ∙ h20 in
      let event : Log = lock_log (eth.hex_to_address bridge_addr) lock_topic l in
      let found : scan_logs eth bridge_addr (before ++ (event ∷ after))
          ≡ ok (record { recipient = eth.address_hex l.eth_destination; amount = l.amount }) =
        scan_logs-skip eth bridge_addr before (event ∷ after) others
        ∙ scan_log-lock_log is_eth lock_topic l (scan_logs eth bridge_addr after) topic small_l
            h20_l in
      let same : ok (record { recipient = eth.address_hex l.eth_destination; amount = l.amount })
          ≡ ok (record { recipient = eth.address_hex eth_destination; amount = msg_value }) =
        cc in
      fetch_lock_details-scan_logs node evm_rpc_url tx_hash_hex (before ++ (event ∷ after)) dials
        receipt
      ∙ found
      ∙ same

  -- Whether a log is the bridge's lock event.
  unfoldable pub IsLockEvent : Log → Type 0
  IsLockEvent v_log =
      (topic : Bytes) × (others : List Bytes) × (v_log.topics ≡ topic ∷ others)
      × (hex_encode topic ≡ lock_event_sig)
      × (v_log.address ≡ eth.hex_to_address bridge_addr)

  -- The first lock event of the logs, and that it holds `d`.
  unfoldable pub IsFirstLock : List Log → LockDetails → Type 0
  IsFirstLock logs d =
      (before : List Log) × (v_log : Log) × (after : List Log) × (logs ≡ before ++ (v_log ∷ after))
      × All (IsOther eth bridge_addr) before
      × IsLockEvent v_log
      × (read_lock eth v_log.log_data ≡ ok d)

  is_lock-true :
      (topic : Bytes) (v_log : Log)
      → is_lock eth bridge_addr topic v_log ≡ true
      → (hex_encode topic ≡ lock_event_sig) × (v_log.address ≡ eth.hex_to_address bridge_addr)
  unfolding is_lock
  is_lock-true topic v_log h =
      let (h1, h2) =
        &&_split (text_eq (hex_encode topic) lock_event_sig)
          (text_eq v_log.address (eth.hex_to_address bridge_addr)) h in
      (
        text_eq→eq (hex_encode topic) lock_event_sig h1,
        text_eq→eq v_log.address (eth.hex_to_address bridge_addr) h2,
      )

  scan_log-ok :
      (topics : List Bytes) (v_log : Log) (rest : Outcome LockError LockDetails) (d : LockDetails)
      → v_log.topics ≡ topics
      → scan_log eth bridge_addr topics v_log rest ≡ ok d
      → (IsLockEvent v_log × (read_lock eth v_log.log_data ≡ ok d))
        ⊎ (IsOther eth bridge_addr v_log × (rest ≡ ok d))
  unfolding scan_log IsLockEvent IsOther is_other
  scan_log-ok [] v_log rest d eq h = ground (arith, h)
  scan_log-ok (topic ∷ topics) v_log rest d eq h =
      elim (Bool-cases (is_lock eth bridge_addr topic v_log)) [
        | inl e ↦
            let (h1, h2) = is_lock-true topic v_log e in
            inl ((topic, topics, eq, h1, h2), ground (arith, e, h))
        | inr e ↦ inr (ground (arith, eq, e), ground (arith, e, h))
      ]

  scan_logs-ok :
      (logs : List Log) (d : LockDetails)
      → scan_logs eth bridge_addr logs ≡ ok d
      → IsFirstLock logs d
  unfolding scan_logs IsFirstLock
  scan_logs-ok [] d h = ground (arith, h)
  scan_logs-ok (v_log ∷ logs) d h =
      elim (scan_log-ok v_log.topics v_log (scan_logs eth bridge_addr logs) d refl h) [
        | inl p ↦ ([], v_log, logs, refl, tt, p.0, p.1)
        | inr p ↦
            let (before, found, after, eq, others, lock_event, r) = scan_logs-ok logs d p.1 in
            (v_log ∷ before, found, after, ap (λ t. v_log ∷ t) eq, (p.0, others), lock_event, r)
      ]

  -- Whatever `FetchLockDetails` returns is read from the first log of the receipt that is the
  -- bridge's own lock event: its first topic is the event's signature and its address the bridge's.
  pub fetch_lock_details_sound :
      (node : EvmNode) (evm_rpc_url tx_hash_hex : Bytes) (d : LockDetails)
      → fetch_lock_details eth node evm_rpc_url bridge_addr tx_hash_hex ≡ ok d
      → (logs : List Log) × (node.receipt_logs evm_rpc_url (eth.hex_to_hash tx_hash_hex)
          ≡ some logs)
        × IsFirstLock logs d
  unfolding fetch_lock_details
  fetch_lock_details_sound node evm_rpc_url tx_hash_hex d h =
      split (node.dials evm_rpc_url) (node.receipt_logs evm_rpc_url (eth.hex_to_hash tx_hash_hex))
        refl refl
    where
      split :
          (b : Bool) (o : Option (List Log))
          → node.dials evm_rpc_url ≡ b
          → node.receipt_logs evm_rpc_url (eth.hex_to_hash tx_hash_hex) ≡ o
          → (logs : List Log) × (node.receipt_logs evm_rpc_url (eth.hex_to_hash tx_hash_hex)
              ≡ some logs)
            × IsFirstLock logs d
      split false o e1 e2 = ground (arith, e1, h)
      split true none e1 e2 = ground (arith, e1, e2, h)
      split true (some logs) e1 e2 = (
        logs,
        e2,
        scan_logs-ok logs d
            (sym (fetch_lock_details-scan_logs node evm_rpc_url tx_hash_hex logs e1 e2) ∙ h),
      )
