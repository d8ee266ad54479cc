-- ===== src/Circuit/Merkle.antt =====
-- The Merkle path that the circuit of zk-bridge/pkg/circuits/bridge.go is about, without the
-- circuit: RFC 6962 inner nodes, as CometBFT hashes them.
pub mod Levels
pub mod Accepts
use zk_cosmos_eth_bridge.Common.{
  ℕ, zero, suc, ◌≡◌, ◌⊎◌, List, [], ◌∷◌, ◌++◌, ◌==◌, if◌then◌else◌, Bytes,
}

abbrev pub IsBit : ℕ → Type 0
IsBit h = (h ≡ 0) ⊎ (h ≡ 1)

module _ (sha256 : Bytes → Bytes) where
  -- The parent of two siblings: side 1 means that the sibling is the left one.
  abbrev pub node : ℕ → Bytes → Bytes → Bytes
  node side sibling current =
      sha256 (1 ∷ (if side == 1 then sibling ++ current else current ++ sibling))

  -- From a leaf hash up the first `depth` siblings.
  unfoldable pub climb : ℕ → List Bytes → List ℕ → Bytes → Bytes
  climb zero siblings sides current = current
  climb (suc depth) [] sides current = current
  climb (suc depth) (sibling ∷ siblings) [] current = current
  climb (suc depth) (sibling ∷ siblings) (side ∷ sides) current =
      climb depth siblings sides (node side sibling current)
