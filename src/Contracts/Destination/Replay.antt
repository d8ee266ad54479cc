-- ===== src/Contracts/Destination/Replay.antt =====
-- Replays of a lock on zk-bridge/contracts/BridgeDestination.sol.
use zk_cosmos_eth_bridge.Common.{
  ℕ, ◌+◌, ◌≡◌, refl, ap, sym, ◌∙◌, true, false, List, [], ◌∷◌, ◌⊎◌, inl, inr, arith, if◌then◌else◌,
  Bytes, text_eq, text_eq_refl, text_eq→eq, Bool-cases, ok, err,
}
use mathlib.Core.Path.{subst}
use zk_cosmos_eth_bridge.Contracts.Destination.Mint.{Accepted, Accepted-left, mint-Accepted}
use zk_cosmos_eth_bridge.Contracts.Destination.{
  MintCall, BridgeMinted, untrusted_block_root, transaction_already_processed, Chain,
  DestinationState, construct, mint, mark_and_mint, update_trusted_root, Step, Steps, minted,
  reverted, root_updated, erc20_called, done, then_step,
}

-- How often a hash was minted.
unfoldable pub times_minted : Bytes → List BridgeMinted → ℕ
times_minted h [] = 0
times_minted h (e ∷ events) = (if text_eq h e.tx_hash then 1 else 0) + times_minted h events

module _ {Tokens : Type 0} (chain : Chain Tokens) where
  -- The hashes that are marked are those that were minted, once each.
  unfoldable pub IsConsistent : DestinationState Tokens → Type 0
  IsConsistent s = (h : Bytes) → times_minted h s.events ≡ (if s.processed_txs h then 1 else 0)

  mark_and_mint-IsConsistent :
      (m : MintCall) (s : DestinationState Tokens) (t : Tokens)
      → s.processed_txs m.lock_tx_hash ≡ false
      → IsConsistent s
      → IsConsistent (mark_and_mint chain m s t)
  unfolding IsConsistent mark_and_mint times_minted
  mark_and_mint-IsConsistent m s t fresh inv h = elim (Bool-cases (text_eq h m.lock_tx_hash)) [
    | inl e ↦
        let unmarked : s.processed_txs h ≡ false =
          ap s.processed_txs (text_eq→eq h m.lock_tx_hash e) ∙ fresh in
        ground (arith, inv h, e, unmarked)
    | inr e ↦ ground (arith, inv h, e)
  ]

  construct-IsConsistent : (root : Bytes) (t : Tokens) → IsConsistent (construct chain root t)
  unfolding IsConsistent construct times_minted
  construct-IsConsistent root t h = refl

  update_trusted_root-IsConsistent :
      (root : Bytes) (s : DestinationState Tokens)
      → IsConsistent s
      → IsConsistent (update_trusted_root chain root s)
  unfolding IsConsistent update_trusted_root
  update_trusted_root-IsConsistent root s inv = inv

  Step-IsConsistent :
      {s s' : DestinationState Tokens} → Step chain s s' → IsConsistent s → IsConsistent s'
  Step-IsConsistent {s} {s'} (minted m h) inv =
      let acc : Accepted chain m s s' = mint-Accepted chain m s s' h in
      subst IsConsistent (sym (Accepted-left chain m s s' acc))
        (mark_and_mint-IsConsistent m s s'.tokens acc.fresh inv)
  Step-IsConsistent (reverted m e h) inv = inv
  Step-IsConsistent {s} (root_updated root) inv = update_trusted_root-IsConsistent root s inv
  Step-IsConsistent (erc20_called tokens) inv = unfold IsConsistent in inv

  Steps-IsConsistent :
      {s s' : DestinationState Tokens} → Steps chain s s' → IsConsistent s → IsConsistent s'
  Steps-IsConsistent done inv = inv
  Steps-IsConsistent (then_step before step) inv =
      Step-IsConsistent step (Steps-IsConsistent before inv)

  -- After any transactions from the deployment on, a hash was minted once where it is marked as
  -- processed and never where it is not.
  pub times_minted-Steps :
      (root : Bytes) (t : Tokens) (s : DestinationState Tokens)
      → Steps chain (construct chain root t) s
      → (h : Bytes) → times_minted h s.events ≡ (if s.processed_txs h then 1 else 0)
  unfolding IsConsistent
  times_minted-Steps root t s steps = Steps-IsConsistent steps (construct-IsConsistent root t)

  marked_by_mint :
      (m : MintCall) (s s' : DestinationState Tokens)
      → mint chain m s ≡ ok s'
      → s'.processed_txs m.lock_tx_hash ≡ true
  unfolding mark_and_mint
  marked_by_mint m s s' h =
      let acc : Accepted chain m s s' = mint-Accepted chain m s s' h in
      ap (λ q. q.processed_txs m.lock_tx_hash) (Accepted-left chain m s s' acc)
      ∙ ground (arith, text_eq_refl m.lock_tx_hash)

  Step-marked :
      (h : Bytes) {s s' : DestinationState Tokens}
      → Step chain s s'
      → s.processed_txs h ≡ true
      → s'.processed_txs h ≡ true
  unfolding mark_and_mint update_trusted_root
  Step-marked h {s} {s'} (minted m e) mark =
      let acc : Accepted chain m s s' = mint-Accepted chain m s s' e in
      ap (λ q. q.processed_txs h) (Accepted-left chain m s s' acc) ∙ ground (arith, mark)
  Step-marked h (reverted m e eq) mark = mark
  Step-marked h (root_updated root) mark = mark
  Step-marked h (erc20_called tokens) mark = mark

  Steps-marked :
      (h : Bytes) {s s' : DestinationState Tokens}
      → Steps chain s s'
      → s.processed_txs h ≡ true
      → s'.processed_txs h ≡ true
  Steps-marked h done mark = mark
  Steps-marked h (then_step before step) mark = Step-marked h step (Steps-marked h before mark)

  mint-marked :
      (m : MintCall) (s : DestinationState Tokens)
      → s.processed_txs m.lock_tx_hash ≡ true
      → (mint chain m s ≡ err untrusted_block_root)
        ⊎ (mint chain m s ≡ err transaction_already_processed)
  unfolding mint
  mint-marked m s mark = elim (Bool-cases (text_eq m.root s.trusted_block_root)) [
    | inl e ↦ inr (ground (arith, e, mark))
    | inr e ↦ inl (ground (arith, e))
  ]

  -- Once a mint of a hash succeeded, every later mint of that hash reverts, at the check of the
  -- root or at the check of the hash, whatever transactions came between.
  pub mint_once :
      (m m' : MintCall) (s s' s'' : DestinationState Tokens)
      → mint chain m s ≡ ok s'
      → Steps chain s' s''
      → m'.lock_tx_hash ≡ m.lock_tx_hash
      → (mint chain m' s'' ≡ err untrusted_block_root)
        ⊎ (mint chain m' s'' ≡ err transaction_already_processed)
  mint_once m m' s s' s'' h steps same =
      mint-marked m' s''
        (ap s''.processed_txs same ∙ Steps-marked m.lock_tx_hash steps (marked_by_mint m s s' h))
