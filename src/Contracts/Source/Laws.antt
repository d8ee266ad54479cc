-- ===== src/Contracts/Source/Laws.antt =====
-- The log of a `Lock` event of zk-bridge/contracts/BridgeSource.sol, as `FetchLockDetails` reads it.
use native.Mathlib.Nat.{pow-suc}
use zk_cosmos_eth_bridge.Common.{
  ℕ, zero, suc, ◌+◌, ◌*◌, ◌/◌, ◌%◌, ◌^◌, ◌<◌, ◌≡◌, refl, ap, ◌∙◌, Bool, true, false, not, List, [],
  ◌∷◌, ◌++◌, arith, Bytes, All, length, take, drop, replicate, Outcome, ok, length-append,
}
use zk_cosmos_eth_bridge.Codec.BigEndian.{be_value}
use zk_cosmos_eth_bridge.Prover.Lock.{
  EthCommon, IsEthCommon, Log, LockDetails, LockError, read_lock, is_lock, scan_log, scan_logs,
}
use zk_cosmos_eth_bridge.Contracts.Source.{SourceLock, to_be, address_word, lock_log}

be_value-snoc :
    (acc : ℕ) (s : Bytes) (b : ℕ) → be_value acc (s ++ (b ∷ [])) ≡ be_value acc s * 256 + b
unfolding be_value
be_value-snoc acc [] b = refl
be_value-snoc acc (x ∷ s) b = be_value-snoc (acc * 256 + x) s b

below_one : (v : ℕ) → v < 256 ^ 0 → 0 ≡ v
below_one v h = let h1 : v < 1 = h in omega (arith, h1)

small : (n v : ℕ) → v < 256 ^ suc n → v / 256 < 256 ^ n
small n v h = let eq : 256 ^ suc n ≡ 256 ^ n * 256 = pow-suc 256 n in omega (arith, eq, h)

-- A number is read back from its bytes.
be_value-to_be : (n v : ℕ) → v < 256 ^ n → be_value 0 (to_be n v) ≡ v
unfolding to_be be_value
be_value-to_be zero v h = below_one v h
be_value-to_be (suc n) v h =
    be_value-snoc 0 (to_be n (v / 256)) (v % 256)
    ∙ ap (λ q. q * 256 + v % 256) (be_value-to_be n (v / 256) (small n v h))
    ∙ omega arith

length-to_be : (n v : ℕ) → length (to_be n v) ≡ n
unfolding to_be
length-to_be zero v = refl
length-to_be (suc n) v =
    omega (arith, length-append (to_be n (v / 256)) (v % 256 ∷ []), length-to_be n (v / 256))

take-append {ℓ} : {A : Type ℓ} (n : ℕ) (xs ys : List A) → length xs ≡ n → take n (xs ++ ys) ≡ xs
take-append zero [] ys h = refl
take-append zero (x ∷ xs) ys h = absurd (omega arith)
take-append (suc n) [] ys h = absurd (omega arith)
take-append (suc n) (x ∷ xs) ys h = ap (λ r. x ∷ r) (take-append n xs ys (omega arith))

drop-append {ℓ} : {A : Type ℓ} (n : ℕ) (xs ys : List A) → length xs ≡ n → drop n (xs ++ ys) ≡ ys
drop-append zero [] ys h = refl
drop-append zero (x ∷ xs) ys h = absurd (omega arith)
drop-append (suc n) [] ys h = absurd (omega arith)
drop-append (suc n) (x ∷ xs) ys h = drop-append n xs ys (omega arith)

-- A word of zeros and then an address, cut to the address.
drop-address_word : (a : Bytes) → drop 12 (address_word a) ≡ a
drop-address_word a = drop-append 12 (replicate 12 0) a refl

length-address_word : (a : Bytes) → length a ≡ 20 → length (address_word a) ≡ 32
length-address_word a h = length-append (replicate 12 0) a ∙ ap (λ n. 12 + n) h

-- Whether a log has a topic and is not the bridge's lock event.
unfoldable pub is_other : EthCommon → Bytes → List Bytes → Log → Bool
is_other eth bridge_addr [] v_log = false
is_other eth bridge_addr (topic ∷ topics) v_log = not (is_lock eth bridge_addr topic v_log)

unfoldable pub IsOther : EthCommon → Bytes → Log → Type 0
IsOther eth bridge_addr v_log = is_other eth bridge_addr v_log.topics v_log ≡ true

module _ (eth : EthCommon) (bridge_addr : Bytes) where
  scan_log-IsOther :
      (topics : List Bytes) (v_log : Log) (rest : Outcome LockError LockDetails)
      → is_other eth bridge_addr topics v_log ≡ true
      → scan_log eth bridge_addr topics v_log rest ≡ rest
  unfolding is_other scan_log
  scan_log-IsOther [] v_log rest h = ground arith
  scan_log-IsOther (topic ∷ topics) v_log rest h = ground arith

  -- Other logs before the event do not hide it.
  pub scan_logs-skip :
      (before rest : List Log)
      → All (IsOther eth bridge_addr) before
      → scan_logs eth bridge_addr (before ++ rest) ≡ scan_logs eth bridge_addr rest
  unfolding scan_logs IsOther
  scan_logs-skip [] rest h = refl
  scan_logs-skip (v_log ∷ before) rest (h, hs) =
      scan_log-IsOther v_log.topics v_log (scan_logs eth bridge_addr (before ++ rest)) h
      ∙ scan_logs-skip before rest hs

  -- The data of the event: the amount, the recipient's address and the nonce.
  pub read_lock-lock_log :
      IsEthCommon eth
      → (contract_address lock_topic : Bytes) (l : SourceLock) → l.amount < 2 ^ 256
      → length l.eth_destination ≡ 20
      → read_lock eth (lock_log contract_address lock_topic l).log_data
        ≡ ok (record { recipient = eth.address_hex l.eth_destination; amount = l.amount })
  unfolding read_lock lock_log
  read_lock-lock_log is_eth contract_address lock_topic l small h20 =
      let amount_word : Bytes = to_be 32 l.amount in
      let dest_word : Bytes = address_word l.eth_destination in
      let nonce_word : Bytes = to_be 32 l.nonce in
      let payload : Bytes = amount_word ++ (dest_word ++ nonce_word) in
      let h1 : length amount_word ≡ 32 = length-to_be 32 l.amount in
      let h2 : length dest_word ≡ 32 = length-address_word l.eth_destination h20 in
      let h3 : length nonce_word ≡ 32 = length-to_be 32 l.nonce in
      let len : length payload ≡ 96 = omega (
        arith,
        length-append amount_word (dest_word ++ nonce_word),
        length-append dest_word nonce_word,
      ) in
      let t1 : take 32 payload ≡ amount_word =
        take-append 32 amount_word (dest_word ++ nonce_word) h1 in
      let t2 : take 32 (drop 32 payload) ≡ dest_word =
        ap (take 32) (drop-append 32 amount_word (dest_word ++ nonce_word) h1)
        ∙ take-append 32 dest_word nonce_word h2 in
      let a1 : be_value 0 (take 32 payload) ≡ l.amount =
        ap (be_value 0) t1 ∙ be_value-to_be 32 l.amount (omega (arith, small)) in
      let a2 : eth.bytes_to_address (take 32 (drop 32 payload)) ≡ l.eth_destination =
        ap eth.bytes_to_address t2
        ∙ is_eth.bytes_to_address_lem dest_word h2
        ∙ drop-address_word l.eth_destination in
      ground (arith, len, a1, a2)
