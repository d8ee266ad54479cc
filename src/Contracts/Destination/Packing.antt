-- ===== src/Contracts/Destination/Packing.antt =====
-- `getPackedInputs` of zk-bridge/contracts/BridgeDestination.sol and the packing of the prover.
use native.Mathlib.Nat.{pow-suc, pow-le-pow_right}
use mathlib.Core.Path.{ap₂}
use zk_cosmos_eth_bridge.Common.{
  ℕ, zero, suc, ◌+◌, ◌*◌, ◌%◌, ◌^◌, ◌<◌, ◌≤◌, ◌≡◌, refl, ap, sym, ◌∙◌, [], ◌∷◌, ◌++◌, arith, Bytes,
  IsByte, All, length, take, drop, get_or,
}
use zk_cosmos_eth_bridge.Codec.BigEndian.{be_value, be_uint64, pack_words}
use zk_cosmos_eth_bridge.Contracts.Destination.{pack_word, pack_from, get_packed_inputs}

-- The rest of a list from `k` on starts with its element `k`.
drop-get_or : (b : Bytes) (k : ℕ) → k < length b → drop k b ≡ get_or b k 0 ∷ drop (suc k) b
drop-get_or [] k h = absurd (omega arith)
drop-get_or (x ∷ b) zero h = refl
drop-get_or (x ∷ b) (suc k) h = drop-get_or b k (omega arith)

get_or-IsByte : (b : Bytes) (k : ℕ) → All IsByte b → get_or b k 0 < 256
get_or-IsByte [] k h = omega arith
get_or-IsByte (x ∷ b) zero h = h.0
get_or-IsByte (x ∷ b) (suc k) h = get_or-IsByte b k h.1

-- Below eight bytes the shift loses nothing.
shift_fits : (m n val : ℕ) → suc m + n ≡ 8 → val < 256 ^ m → val * 256 < 2 ^ 64
shift_fits m n val h small =
    let grow : 256 ^ suc m ≡ 256 ^ m * 256 = pow-suc 256 m in
    let top : 256 ^ suc m ≤ 256 ^ 8 = pow-le-pow_right (omega arith) {j = 8} (omega arith) in
    omega (arith, grow, top)

pack_word-be_value :
    (n m : ℕ) (b : Bytes) (k val : ℕ)
    → m + n ≡ 8
    → k + n ≤ length b
    → All IsByte b
    → val < 256 ^ m
    → pack_word n b k val ≡ be_value val (take n (drop k b))
unfolding pack_word be_value
pack_word-be_value zero m b k val hm hk hb small = refl
pack_word-be_value (suc n) m b k val hm hk hb small =
    let byte : get_or b k 0 < 256 = get_or-IsByte b k hb in
    let fits : val * 256 < 2 ^ 64 = shift_fits m n val (omega arith) small in
    let next : val * 256 % 2 ^ 64 + get_or b k 0 % 256 ≡ val * 256 + get_or b k 0 = omega arith in
    let grow : 256 ^ suc m ≡ 256 ^ m * 256 = pow-suc 256 m in
    let ih : pack_word n b (suc k) (val * 256 + get_or b k 0)
        ≡ be_value (val * 256 + get_or b k 0) (take n (drop (suc k) b)) =
      pack_word-be_value n (suc m) b (suc k) (val * 256 + get_or b k 0) (omega arith) (omega arith)
        hb (omega (arith, grow)) in
    ap (pack_word n b (suc k)) next
    ∙ ih
    ∙ ap (λ r. be_value val (take (suc n) r)) (sym (drop-get_or b k (omega arith)))

drop-nil : (n : ℕ) → drop {A = ℕ} n [] ≡ []
drop-nil zero = refl
drop-nil (suc n) = refl

drop-drop : (n k : ℕ) (b : Bytes) → drop n (drop k b) ≡ drop (k + n) b
drop-drop n zero b = let same : n ≡ 0 + n = omega arith in ap (λ q. drop q b) same
drop-drop n (suc k) [] = drop-nil n ∙ sym (drop-nil (suc k + n))
drop-drop n (suc k) (x ∷ b) =
    let same : suc (k + n) ≡ suc k + n = omega arith in
    drop-drop n k b ∙ ap (λ q. drop q (x ∷ b)) same

pack_from-pack_words :
    (n : ℕ) (b : Bytes) (i : ℕ)
    → (i + n) * 8 ≤ length b
    → All IsByte b
    → pack_from n b i ≡ pack_words n (drop (i * 8) b)
unfolding pack_from pack_words
pack_from-pack_words zero b i h hb = refl
pack_from-pack_words (suc n) b i h hb =
    let word : pack_word 8 b (i * 8) 0 ≡ be_uint64 (drop (i * 8) b) =
      pack_word-be_value 8 0 b (i * 8) 0 (omega arith) (omega arith) hb (omega arith) in
    let index : i * 8 + 8 ≡ suc i * 8 = omega arith in
    let rest : pack_from n b (suc i) ≡ pack_words n (drop 8 (drop (i * 8) b)) =
      pack_from-pack_words n b (suc i) (omega arith) hb
      ∙ ap (pack_words n) (ap (λ q. drop q b) (sym index) ∙ sym (drop-drop 8 (i * 8) b)) in
    ap₂ (λ w r. w ∷ r) word rest

-- For a root and a hash of 32 bytes, the public inputs that the contract packs are those of the
-- prover: each of the two, read in words of eight bytes with the highest first.
pub get_packed_inputs-pack_words :
    (root tx : Bytes)
    → length root ≡ 32
    → length tx ≡ 32
    → All IsByte root
    → All IsByte tx
    → get_packed_inputs root tx ≡ pack_words 4 root ++ pack_words 4 tx
unfolding get_packed_inputs
get_packed_inputs-pack_words root tx h1 h2 hb1 hb2 =
    ap₂ (λ x y. x ++ y) (pack_from-pack_words 4 root 0 (omega arith) hb1)
      (pack_from-pack_words 4 tx 0 (omega arith) hb2)
