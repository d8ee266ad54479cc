-- ===== src/Prover/Witness/Laws.antt =====
-- The shape of the witness, and the Merkle path that it holds.
use zk_cosmos_eth_bridge.Common.{
  ℕ, zero, suc, ◌/◌, ◌%◌, ◌^◌, ◌≤◌, ◌<◌, ◌≡◌, refl, ap, sym, ◌∙◌, inl, Option, none, some, List, [],
  ◌∷◌, ◌++◌, arith, Bytes, All, length, take, drop, Outcome, ok, err, panic, ◌>>=◌, take-all,
}
use mathlib.Core.Path.{subst}
use mathlib.Core.List.{append-nil}
use zk_cosmos_eth_bridge.Common.Maybe
use zk_cosmos_eth_bridge.Codec.BigEndian.{pack_words}
use zk_cosmos_eth_bridge.Rpc.Hash.{HashError, decode_hash}
use zk_cosmos_eth_bridge.Rpc.Hash.Laws.{IsHash, decode_hash_sound}
use zk_cosmos_eth_bridge.Circuit.Define.{merkle_depth, ZkBridgeCircuit, IsShaped}
use zk_cosmos_eth_bridge.Circuit.Merkle.{IsBit, node, climb}
use zk_cosmos_eth_bridge.Prover.Witness.{
  ProveError, zero_hash, unchecked, copy_32, shift_right, proof_levels, witness_of, make_witness,
}

-- The decoded siblings, if all can be decoded.
unfoldable pub decode_all : List Bytes → Option (List Bytes)
decode_all [] = some []
decode_all (aunt ∷ aunts) =
    Maybe.◌>>=◌ (elim (decode_hash aunt) [ ok b ↦ some b | err e ↦ none | panic ↦ none ])
      λ sibling. Maybe.◌>>=◌ (decode_all aunts) λ siblings. some (sibling ∷ siblings)

-- The root above leaf number `index`, from its siblings: even numbers stand left.
unfoldable pub merkle_root : (Bytes → Bytes) → ℕ → List Bytes → Bytes → Bytes
merkle_root sha256 index [] leaf = leaf
merkle_root sha256 index (sibling ∷ siblings) leaf =
    merkle_root sha256 (index / 2) siblings (node sha256 (index % 2) sibling leaf)

-- A chain that succeeds.
pub bind-eq-ok :
    {E A B : Type 0} (m : Outcome E A) (f : A → Outcome E B) {b : B}
    → (m >>= f) ≡ ok b
    → (a : A) × (m ≡ ok a) × (f a ≡ ok b)
bind-eq-ok (ok a) f h = (a, refl, h)
bind-eq-ok (err e) f h = cc
bind-eq-ok panic f h = cc

abbrev need : Outcome HashError Bytes → Outcome ProveError Bytes
need o = elim o [ ok b ↦ ok b | err e ↦ panic | panic ↦ panic ]

need-eq-ok : (o : Outcome HashError Bytes) {b : Bytes} → need o ≡ ok b → o ≡ ok b
need-eq-ok (ok c) h = cc
need-eq-ok (err e) h = cc
need-eq-ok panic h = cc

length-zero_hash : length zero_hash ≡ 32
length-zero_hash = refl

pub record IsLevels (n : ℕ) (aunts : List Bytes) (index : ℕ) (proof : List Bytes × List ℕ)
    : Type 0 where
  pub path_length : length proof.0 ≡ n
  pub path_bytes : All (λ s. length s ≡ 32) proof.0
  pub side_length : length proof.1 ≡ n
  pub side_bits : All IsBit proof.1

IsBit-of_mod : (i : ℕ) → IsBit (i % 2)
IsBit-of_mod i = omega arith

pub proof_levels-IsLevels :
    (n : ℕ) (aunts : List Bytes) (index : ℕ) (proof : List Bytes × List ℕ)
    → proof_levels n aunts index ≡ ok proof
    → IsLevels n aunts index proof
unfolding proof_levels
proof_levels-IsLevels zero aunts index proof h =
    let same : ([], []) ≡ proof = cc in
    subst (IsLevels zero aunts index) same
      (record { path_length = refl; path_bytes = tt; side_length = refl; side_bits = tt })
proof_levels-IsLevels (suc n) [] index proof h =
    let (rest, first, e) = bind-eq-ok (proof_levels n [] index) _ h in
    let r = proof_levels-IsLevels n [] index rest first in
    let same : (zero_hash ∷ rest.0, 0 ∷ rest.1) ≡ proof = cc in
    subst (IsLevels (suc n) [] index) same (record {
      path_length = ap suc r.path_length;
      path_bytes = (length-zero_hash, r.path_bytes);
      side_length = ap suc r.side_length;
      side_bits = (inl refl, r.side_bits);
    })
proof_levels-IsLevels (suc n) (aunt ∷ aunts) index proof h =
    let (sibling, here, h') = bind-eq-ok (need (decode_hash aunt)) _ h in
    let (rest, first, e) = bind-eq-ok (proof_levels n aunts (shift_right index)) _ h' in
    let r = proof_levels-IsLevels n aunts (shift_right index) rest first in
    let same : (sibling ∷ rest.0, index % 2 ∷ rest.1) ≡ proof = cc in
    subst (IsLevels (suc n) (aunt ∷ aunts) index) same (record {
      path_length = ap suc r.path_length;
      path_bytes = ((decode_hash_sound aunt (need-eq-ok (decode_hash aunt) here)).1, r.path_bytes);
      side_length = ap suc r.side_length;
      side_bits = (IsBit-of_mod index, r.side_bits);
    })

shift_right_half : (i : ℕ) → i < 2 ^ 63 → shift_right i ≡ i / 2
shift_right_half i h = ground arith

-- The climb over the levels of the witness is the Merkle root over the decoded siblings.
pub climb-proof_levels :
    (sha256 : Bytes → Bytes) (n : ℕ) (aunts : List Bytes) (index : ℕ) (proof : List Bytes × List ℕ)
    (leaf : Bytes)
    → length aunts ≤ n
    → index < 2 ^ 63
    → proof_levels n aunts index ≡ ok proof
    → (siblings : List Bytes) × (decode_all aunts ≡ some siblings)
      × (climb sha256 (length aunts) proof.0 proof.1 leaf ≡ merkle_root sha256 index siblings leaf)
unfolding proof_levels decode_all merkle_root climb
climb-proof_levels sha256 n [] index proof leaf fits small h = ([], refl, refl)
climb-proof_levels sha256 zero (aunt ∷ aunts) index proof leaf fits small h = absurd (omega arith)
climb-proof_levels sha256 (suc n) (aunt ∷ aunts) index proof leaf fits small h =
    let (sibling, here, h') = bind-eq-ok (need (decode_hash aunt)) _ h in
    let (rest, first, e) = bind-eq-ok (proof_levels n aunts (shift_right index)) _ h' in
    let half = shift_right_half index small in
    let (siblings, decoded, climbs) =
      climb-proof_levels sha256 n aunts (shift_right index) rest
        (node sha256 (index % 2) sibling leaf) (omega arith) (omega (arith, half)) first in
    let same : (sibling ∷ rest.0, index % 2 ∷ rest.1) ≡ proof = cc in
    (
      sibling ∷ siblings,
      rw (need-eq-ok (decode_hash aunt) here, decoded),
      ap (λ (p : List Bytes × List ℕ). climb sha256 (suc (length aunts)) p.0 p.1 leaf) (sym same)
          ∙ climbs
          ∙ ap (λ i. merkle_root sha256 i siblings (node sha256 (index % 2) sibling leaf)) half,
    )

-- An aunt among the first `n` that cannot be decoded ends the function by a panic.
pub proof_levels_undecodable :
    (n : ℕ) (aunts : List Bytes) (index : ℕ)
    → decode_all (take n aunts) ≡ none
    → proof_levels n aunts index ≡ panic
unfolding proof_levels decode_all
proof_levels_undecodable zero aunts index h = cc
proof_levels_undecodable (suc n) [] index h = cc
proof_levels_undecodable (suc n) (aunt ∷ aunts) index h =
    split (decode_hash aunt) (decode_all (take n aunts)) (proof_levels n aunts (shift_right index))
      (λ e. proof_levels_undecodable n aunts (shift_right index) e) h
  where
    put : Bytes → List Bytes × List ℕ → Outcome ProveError (List Bytes × List ℕ)
    put sibling rest = ok (sibling ∷ rest.0, index % 2 ∷ rest.1)

    split :
        (o : Outcome HashError Bytes) (r : Option (List Bytes))
        (p : Outcome ProveError (List Bytes × List ℕ))
        → (r ≡ none → p ≡ panic)
        → Maybe.◌>>=◌
            (elim o [ ok b ↦ some b | err e ↦ none | panic ↦ none ])
            (λ sibling. Maybe.◌>>=◌ r λ siblings. some (sibling ∷ siblings))
          ≡ none
        → (need o >>= λ sibling. p >>= λ rest. put sibling rest) ≡ panic
    split (ok b) none p f e = rw (f refl)
    split (ok b) (some s) p f e = cc
    split (err x) r p f e = refl
    split panic r p f e = refl

copy_32-IsHash : (b : Bytes) → IsHash b → copy_32 b ≡ b
unfolding copy_32
copy_32-IsHash b h =
    ap (λ n. take 32 (b ++ drop n zero_hash)) h.1
    ∙ ap (take 32) (append-nil b)
    ∙ ap (λ n. take n b) (sym h.1)
    ∙ take-all b

zero_hash-IsHash : IsHash zero_hash
zero_hash-IsHash = (omega arith, refl)

copy_32-nil : copy_32 [] ≡ zero_hash
unfolding copy_32
copy_32-nil = refl

-- Decoded or not, what is copied has 32 bytes.
pub copy_32-unchecked-IsHash :
    (t : Bytes) (o : Outcome HashError Bytes) → decode_hash t ≡ o → IsHash (copy_32 (unchecked o))
copy_32-unchecked-IsHash t (ok b) e =
    let h = decode_hash_sound t e in subst IsHash (sym (copy_32-IsHash b h)) h
copy_32-unchecked-IsHash t (err x) e = subst IsHash (sym copy_32-nil) zero_hash-IsHash
copy_32-unchecked-IsHash t panic e = subst IsHash (sym copy_32-nil) zero_hash-IsHash

-- A text that can be decoded gives its hash, and any other the hash of 32 zeros.
pub copy_32-decode_hash :
    (t b : Bytes) → decode_hash t ≡ ok b → copy_32 (unchecked (decode_hash t)) ≡ b
copy_32-decode_hash t b e =
    ap (λ o. copy_32 (unchecked o)) e ∙ copy_32-IsHash b (decode_hash_sound t e)

pub copy_32-decode_hash_err :
    (t : Bytes) (x : HashError)
    → decode_hash t ≡ err x
    → copy_32 (unchecked (decode_hash t)) ≡ zero_hash
copy_32-decode_hash_err t x e = ap (λ o. copy_32 (unchecked o)) e ∙ copy_32-nil

length-pack_words : (n : ℕ) (s : Bytes) → length (pack_words n s) ≡ n
unfolding pack_words
length-pack_words zero s = refl
length-pack_words (suc n) s = ap suc (length-pack_words n (drop 8 s))

-- A witness that is built holds the levels that were read.
pub make_witness_levels :
    (root tx : Bytes) (aunts : List Bytes) (index : ℕ) {w : ZkBridgeCircuit}
    → make_witness root tx aunts index ≡ ok w
    → (proof : List Bytes × List ℕ) × (proof_levels merkle_depth aunts index ≡ ok proof)
      × (witness_of root tx aunts proof ≡ w)
unfolding make_witness
make_witness_levels root tx aunts index h =
    let (proof, levels_are, e) = bind-eq-ok (proof_levels merkle_depth aunts index) _ h in
    (proof, levels_are, cc)

-- It has the lengths of the circuit's arrays.
pub witness_of-IsShaped :
    (root tx : Bytes) (aunts : List Bytes) (index : ℕ) (proof : List Bytes × List ℕ)
    → proof_levels merkle_depth aunts index ≡ ok proof
    → IsShaped (witness_of root tx aunts proof)
witness_of-IsShaped root tx aunts index proof h =
    let l = proof_levels-IsLevels merkle_depth aunts index proof h in
    record {
      root_words = length-pack_words 4 root;
      tx_hash_words = length-pack_words 4 tx;
      path_levels = l.path_length;
      path_bytes = l.path_bytes;
      helper_levels = l.side_length;
    }
