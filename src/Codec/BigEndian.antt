-- ===== src/Codec/BigEndian.antt =====
-- `encoding/binary`: BigEndian.Uint64, and the bytes of a word.
use zk_cosmos_eth_bridge.Common.{
  ℕ, zero, suc, ◌+◌, ◌*◌, ◌/◌, ◌%◌, ◌^◌, ◌<◌, ◌≡◌, [], ◌∷◌, List, arith, Bytes, IsByte, All, length,
  take, drop,
}

-- The value of the bytes, the highest first; `BigEndian.Uint64` reads eight.
unfoldable pub be_value : ℕ → Bytes → ℕ
be_value acc [] = acc
be_value acc (b ∷ s) = be_value (acc * 256 + b) s

abbrev pub be_uint64 : Bytes → ℕ
be_uint64 s = be_value 0 (take 8 s)

-- Byte `j` of a word, counted from the lowest.
unfoldable pub byte_at : ℕ → ℕ → ℕ
byte_at zero w = w % 256
byte_at (suc j) w = byte_at j (w / 256)

-- The eight bytes of a word, the highest first.
abbrev pub be_bytes : ℕ → Bytes
be_bytes w =
    byte_at 7 w
    ∷ byte_at 6 w
    ∷ byte_at 5 w
    ∷ byte_at 4 w
    ∷ byte_at 3 w
    ∷ byte_at 2 w
    ∷ byte_at 1 w
    ∷ byte_at 0 w
    ∷ []

module _ (b7 b6 b5 b4 b3 b2 b1 b0 : ℕ) (h7 : b7 < 256) (h6 : b6 < 256) (h5 : b5 < 256)
    (h4 : b4 < 256) (h3 : b3 < 256) (h2 : b2 < 256) (h1 : b1 < 256) (h0 : b0 < 256) where
  abbrev word : ℕ
  word = be_value 0 (b7 ∷ b6 ∷ b5 ∷ b4 ∷ b3 ∷ b2 ∷ b1 ∷ b0 ∷ [])

  word-lt : word < 2 ^ 64
  unfolding be_value
  word-lt = omega arith

  bytes-word : be_bytes word ≡ b7 ∷ b6 ∷ b5 ∷ b4 ∷ b3 ∷ b2 ∷ b1 ∷ b0 ∷ []
  unfolding be_value byte_at
  bytes-word = ground arith

-- Eight bytes are the bytes of their word, which fits 64 bits.
pub be_bytes-be_value :
    (s : Bytes)
    → length s ≡ 8
    → All IsByte s
    → (be_value 0 s < 2 ^ 64) × (be_bytes (be_value 0 s) ≡ s)
be_bytes-be_value (a ∷ b ∷ c ∷ d ∷ e ∷ f ∷ g ∷ h ∷ []) n p =
    let (pa, (pb, (pc, (pd, (pe, (pf, (pg, (ph, _)))))))) = p in
    (
      word-lt a b c d e f g h pa pb pc pd pe pf pg ph,
      bytes-word a b c d e f g h pa pb pc pd pe pf pg ph,
    )
be_bytes-be_value _ n p = absurd (omega arith)

-- The words of a text, eight bytes each: `binary.BigEndian.Uint64(s[i*8 : (i+1)*8])` for each `i`
-- below `n`.
unfoldable pub pack_words : ℕ → Bytes → List ℕ
unfolding be_value
pack_words zero s = []
pack_words (suc n) s = be_uint64 s ∷ pack_words n (drop 8 s)
