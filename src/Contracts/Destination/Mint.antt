-- ===== src/Contracts/Destination/Mint.antt =====
-- The checks of `mint` of zk-bridge/contracts/BridgeDestination.sol.
use zk_cosmos_eth_bridge.Common.{
  ℕ, ◌≡◌, ◌↔◌, refl, ap, sym, ◌∙◌, Bool, true, false, Option, none, some, arith, Bytes, text_eq,
  text_eq_refl, text_eq→eq, ok, Bool-cases, ◌⊎◌, inl, inr, if◌then◌else◌, ◌∷◌,
}
use mathlib.Core.Path.{fun_ext, subst}
use zk_cosmos_eth_bridge.Contracts.Destination.{
  MintCall, Chain, DestinationState, proof_of, get_packed_inputs, mint, mark_and_mint,
  update_trusted_root,
}

module _ {Tokens : Type 0} (chain : Chain Tokens) where
  -- What a mint from `s` to `s'` has checked, and every part of the state that it leaves.
  pub record Accepted (m : MintCall) (s s' : DestinationState Tokens) : Type 0 where
    pub trusted : m.root ≡ s.trusted_block_root
    pub fresh : s.processed_txs m.lock_tx_hash ≡ false
    pub proved :
        chain.verify_proof
          (proof_of m)
          m.commitments
          m.commitment_pok
          (get_packed_inputs m.root m.lock_tx_hash)
        ≡ true
    pub paid : chain.erc20_mint m.recipient m.amount s.tokens ≡ some s'.tokens
    pub same_root : s'.trusted_block_root ≡ s.trusted_block_root
    pub marked : s'.processed_txs m.lock_tx_hash ≡ true
    pub others_same :
        (h : Bytes) → (text_eq h m.lock_tx_hash ≡ true) ⊎ (s'.processed_txs h ≡ s.processed_txs h)
    pub emitted :
        s'.events
        ≡ record { recipient = m.recipient; amount = m.amount; tx_hash = m.lock_tx_hash } ∷ s.events

  -- The parts determine the state.
  pub Accepted-left :
      (m : MintCall) (s s' : DestinationState Tokens)
      → Accepted m s s'
      → s' ≡ mark_and_mint chain m s s'.tokens
  unfolding mark_and_mint
  Accepted-left m s s' acc =
      ap (λ r. record s' { trusted_block_root = r }) acc.same_root
      ∙ ap (λ p. record s' { trusted_block_root = s.trusted_block_root; processed_txs = p })
          (fun_ext λ h. marks h (acc.others_same h))
      ∙ ap (λ es. record (mark_and_mint chain m s s'.tokens) { events = es }) acc.emitted
    where
      marks :
          (h : Bytes)
          → (text_eq h m.lock_tx_hash ≡ true) ⊎ (s'.processed_txs h ≡ s.processed_txs h)
          → s'.processed_txs h ≡ (if text_eq h m.lock_tx_hash then true else s.processed_txs h)
      marks h (inl e) =
          ap s'.processed_txs (text_eq→eq h m.lock_tx_hash e)
          ∙ acc.marked
          ∙ sym (ap (λ b. if b then true else s.processed_txs h) e)
      marks h (inr e) = elim (Bool-cases (text_eq h m.lock_tx_hash)) [
        | inl same ↦
            ap s'.processed_txs (text_eq→eq h m.lock_tx_hash same)
            ∙ acc.marked
            ∙ sym (ap (λ b. if b then true else s.processed_txs h) same)
        | inr other ↦ e ∙ sym (ap (λ b. if b then true else s.processed_txs h) other)
      ]

  abbrev checked : MintCall → Bool
  checked m =
      chain.verify_proof (proof_of m) m.commitments m.commitment_pok
        (get_packed_inputs m.root m.lock_tx_hash)

  tokens-mark_and_mint :
      (m : MintCall) (s : DestinationState Tokens) (t : Tokens)
      → (mark_and_mint chain m s t).tokens ≡ t
  unfolding mark_and_mint
  tokens-mark_and_mint m s t = refl

  marked-mark_and_mint :
      (m : MintCall) (s : DestinationState Tokens) (t : Tokens)
      → (mark_and_mint chain m s t).processed_txs m.lock_tx_hash ≡ true
  unfolding mark_and_mint
  marked-mark_and_mint m s t = ground (arith, text_eq_refl m.lock_tx_hash)

  mark_and_mint-others :
      (m : MintCall) (s : DestinationState Tokens) (t : Tokens) (h : Bytes)
      → (text_eq h m.lock_tx_hash ≡ true)
        ⊎ ((mark_and_mint chain m s t).processed_txs h ≡ s.processed_txs h)
  unfolding mark_and_mint
  mark_and_mint-others m s t h = elim (Bool-cases (text_eq h m.lock_tx_hash)) [
    | inl e ↦ inl e
    | inr e ↦ inr (ap (λ b. if b then true else s.processed_txs h) e)
  ]

  mint_checks :
      (m : MintCall) (s : DestinationState Tokens) (t : Tokens)
      → text_eq m.root s.trusted_block_root ≡ true
      → s.processed_txs m.lock_tx_hash ≡ false
      → checked m ≡ true
      → chain.erc20_mint m.recipient m.amount s.tokens ≡ some t
      → mint chain m s ≡ ok (mark_and_mint chain m s t)
  unfolding mint
  mint_checks m s t e1 e2 e3 e4 = ground (arith, e1, e2, e3, e4)

  pub mint-Accepted :
      (m : MintCall) (s s' : DestinationState Tokens) → mint chain m s ≡ ok s' → Accepted m s s'
  unfolding mint mark_and_mint
  mint-Accepted m s s' h =
      split (text_eq m.root s.trusted_block_root) (s.processed_txs m.lock_tx_hash) (checked m)
        (chain.erc20_mint m.recipient m.amount s.tokens) refl refl refl refl
    where
      split :
          (a p v : Bool) (t : Option Tokens)
          → text_eq m.root s.trusted_block_root ≡ a
          → s.processed_txs m.lock_tx_hash ≡ p
          → checked m ≡ v
          → chain.erc20_mint m.recipient m.amount s.tokens ≡ t
          → Accepted m s s'
      split false p v t e1 e2 e3 e4 = ground (arith, e1, h)
      split true true v t e1 e2 e3 e4 = ground (arith, e1, e2, h)
      split true false false t e1 e2 e3 e4 = ground (arith, e1, e2, e3, h)
      split true false true none e1 e2 e3 e4 = ground (arith, e1, e2, e3, e4, h)
      split true false true (some t) e1 e2 e3 e4 =
          let eq : mark_and_mint chain m s t ≡ s' = ground (arith, e1, e2, e3, e4, h) in
          subst (Accepted m s) eq (record {
            trusted = text_eq→eq m.root s.trusted_block_root e1;
            fresh = e2;
            proved = e3;
            paid = e4 ∙ ap some (sym (tokens-mark_and_mint m s t));
            same_root = refl;
            marked = marked-mark_and_mint m s t;
            others_same = mark_and_mint-others m s t;
            emitted = refl;
          })

  -- A mint succeeds exactly where the root is the trusted one, the hash is not processed, the
  -- verifier accepts the proof and the ERC20 contract mints, and the state that it leaves is the one
  -- with the same trusted root, the hash marked and no other mark changed, the tokens of the ERC20
  -- contract and the event of the call in front of the older ones (`Accepted`).
  pub mint_iff :
      (m : MintCall) (s s' : DestinationState Tokens) → (mint chain m s ≡ ok s') ↔ Accepted m s s'
  mint_iff m s s' = (
    mint-Accepted m s s',
    λ acc.
        mint_checks m s s'.tokens (ap (text_eq m.root) (sym acc.trusted) ∙ text_eq_refl m.root)
          acc.fresh acc.proved acc.paid
        ∙ ap ok (sym (Accepted-left m s s' acc)),
  )

  -- Where the verifier accepts the proof of a call `m` for its root and hash and the hash is not
  -- yet processed, the same call for any recipient and amount that the ERC20 contract mints
  -- succeeds, after a call that sets the trusted root to the root of `m`.
  pub mint_unbound :
      (m : MintCall) (s : DestinationState Tokens) (t : Tokens) (recipient : Bytes) (amount : ℕ)
      → s.processed_txs m.lock_tx_hash ≡ false
      → chain.verify_proof
          (proof_of m)
          m.commitments
          m.commitment_pok
          (get_packed_inputs m.root m.lock_tx_hash)
        ≡ true
      → chain.erc20_mint recipient amount s.tokens ≡ some t
      → (let stolen : MintCall = record {
        a = m.a;
        b = m.b;
        c = m.c;
        commitments = m.commitments;
        commitment_pok = m.commitment_pok;
        root = m.root;
        lock_tx_hash = m.lock_tx_hash;
        recipient = recipient;
        amount = amount;
      } in
          mint chain stolen (update_trusted_root chain m.root s)
          ≡ ok (mark_and_mint chain stolen (update_trusted_root chain m.root s) t))
  unfolding update_trusted_root
  mint_unbound m s t recipient amount fresh proved paid =
      let stolen : MintCall = record {
        a = m.a;
        b = m.b;
        c = m.c;
        commitments = m.commitments;
        commitment_pok = m.commitment_pok;
        root = m.root;
        lock_tx_hash = m.lock_tx_hash;
        recipient = recipient;
        amount = amount;
      } in
      mint_checks stolen (update_trusted_root chain m.root s) t (text_eq_refl m.root) fresh proved
        paid
