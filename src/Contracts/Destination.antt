-- ===== src/Contracts/Destination.antt =====
-- zk-bridge/contracts/BridgeDestination.sol: its state, `mint` and `updateTrustedRoot`. The verifier
-- and the ERC20 base contract are other code and so parameters.
pub mod Packing
pub mod Mint
pub mod Replay
use zk_cosmos_eth_bridge.Common.{
  ℕ, zero, suc, ◌+◌, ◌*◌, ◌%◌, ◌^◌, Bool, true, false, Option, none, some, List, [], ◌∷◌, ◌++◌,
  if◌then◌else◌, Bytes, text_eq, get_or, Outcome, ok, err, panic, ◌>>=◌, ◌>>◌, ◌≡◌, or_err,
}

-- `val = (val << 8) | uint64(uint8(b[k]))` for `n` steps from byte `k` on, in 64 bits; the shift
-- leaves the low eight bits free, so the `|` is a sum.
unfoldable pub pack_word : ℕ → Bytes → ℕ → ℕ → ℕ
pack_word zero b k val = val
pack_word (suc n) b k val = pack_word n b (suc k) (val * 256 % 2 ^ 64 + get_or b k 0 % 256)

-- The loop over `i` for the `n` words from word `i` on.
unfoldable pub pack_from : ℕ → Bytes → ℕ → List ℕ
unfolding pack_word
pack_from zero b i = []
pack_from (suc n) b i = pack_word 8 b (i * 8) 0 ∷ pack_from n b (suc i)

unfoldable pub get_packed_inputs : Bytes → Bytes → List ℕ
unfolding pack_from
get_packed_inputs root lock_tx_hash = pack_from 4 root 0 ++ pack_from 4 lock_tx_hash 0

pub record MintCall : Type 0 where
  pub a : ℕ × ℕ
  pub b : (ℕ × ℕ) × (ℕ × ℕ)
  pub c : ℕ × ℕ
  pub commitments : ℕ × ℕ
  pub commitment_pok : ℕ × ℕ
  pub root : Bytes
  pub lock_tx_hash : Bytes
  pub recipient : Bytes
  pub amount : ℕ

-- The event `BridgeMinted`.
pub record BridgeMinted : Type 0 where
  pub recipient : Bytes
  pub amount : ℕ
  pub tx_hash : Bytes

pub data MintError : Type 0 where
  untrusted_block_root transaction_already_processed proof_refused erc20_refused : MintError

-- The verifier, which reverts on a proof it refuses, and the ERC20 base: its state is `Tokens`, and
-- `_mint` may revert.
pub record Chain (Tokens : Type 0) : Type 0 where
  pub verify_proof : List ℕ → ℕ × ℕ → ℕ × ℕ → List ℕ → Bool
  pub erc20_mint : Bytes → ℕ → Tokens → Option Tokens

-- The contract's storage, with the `BridgeMinted` events it has emitted, the latest first.
pub record DestinationState (Tokens : Type 0) : Type 0 where
  pub trusted_block_root : Bytes
  pub processed_txs : Bytes → Bool
  pub tokens : Tokens
  pub events : List BridgeMinted

abbrev pub require : Bool → MintError → Outcome MintError (Unit {0})
require true e = ok tt
require false e = err e

-- The eight elements of the proof for the verifier.
abbrev pub proof_of : MintCall → List ℕ
proof_of m = m.a.0 ∷ m.a.1 ∷ m.b.0.0 ∷ m.b.0.1 ∷ m.b.1.0 ∷ m.b.1.1 ∷ m.c.0 ∷ m.c.1 ∷ []

module _ {Tokens : Type 0} (chain : Chain Tokens) where
  unfoldable pub construct : Bytes → Tokens → DestinationState Tokens
  construct initial_root tokens = record {
    trusted_block_root = initial_root;
    processed_txs = λ h. false;
    tokens = tokens;
    events = [];
  }

  -- The state after step 6: the hash is marked, the tokens are minted, the event is emitted.
  unfoldable pub mark_and_mint :
      MintCall → DestinationState Tokens → Tokens → DestinationState Tokens
  mark_and_mint m s tokens = record {
    trusted_block_root = s.trusted_block_root;
    processed_txs = λ h. if text_eq h m.lock_tx_hash then true else s.processed_txs h;
    tokens = tokens;
    events =
        record { recipient = m.recipient; amount = m.amount; tx_hash = m.lock_tx_hash } ∷ s.events;
  }

  unfoldable pub mint :
      MintCall → DestinationState Tokens → Outcome MintError (DestinationState Tokens)
  mint m s = do
    require (text_eq m.root s.trusted_block_root) untrusted_block_root
    require (if s.processed_txs m.lock_tx_hash then false else true) transaction_already_processed
    require
        (chain.verify_proof (proof_of m) m.commitments m.commitment_pok
          (get_packed_inputs m.root m.lock_tx_hash))
        proof_refused
    tokens ← or_err (chain.erc20_mint m.recipient m.amount s.tokens) erc20_refused
    ok (mark_and_mint m s tokens)

  unfoldable pub update_trusted_root : Bytes → DestinationState Tokens → DestinationState Tokens
  update_trusted_root new_root s = record {
    trusted_block_root = new_root;
    processed_txs = s.processed_txs;
    tokens = s.tokens;
    events = s.events;
  }

  -- One transaction to the contract, from anyone: a call that reverts leaves the state.
  pub data Step : DestinationState Tokens → DestinationState Tokens → Type 0 where
    minted : {s s' : DestinationState Tokens} → (m : MintCall) → mint m s ≡ ok s' → Step s s'
    reverted :
        {s : DestinationState Tokens}
        → (m : MintCall) → (e : MintError) → mint m s ≡ err e
        → Step s s
    root_updated :
        {s : DestinationState Tokens} → (new_root : Bytes) → Step s (update_trusted_root new_root s)
    -- `transfer`, `approve` or `transferFrom` of the ERC20 base, whatever it makes of the tokens
    erc20_called :
        {s : DestinationState Tokens} → (tokens : Tokens) → Step s (record s { tokens = tokens })

  pub data Steps : DestinationState Tokens → DestinationState Tokens → Type 0 where
    done : {s : DestinationState Tokens} → Steps s s
    then_step : {s s' s'' : DestinationState Tokens} → Steps s s' → Step s' s'' → Steps s s''
