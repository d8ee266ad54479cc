-- ===== src/Codec/Hex.antt =====
-- `encoding/hex`: DecodeString, and EncodeToString to state what it accepts.
use zk_cosmos_eth_bridge.Common.{
  ℕ, suc, ◌+◌, ◌-◌, ◌*◌, ◌/◌, ◌%◌, ◌<◌, ◌≡◌, refl, ap, Bool, ◌&&◌, Option, none, some, [], ◌∷◌,
  arith, leb, ltb, if◌then◌else◌, Bytes, IsByte, All, OnSome, length,
}
use zk_cosmos_eth_bridge.Common.Maybe.{◌>>=◌}

abbrev pub in_range : ℕ → ℕ → ℕ → Bool
in_range lo hi c = leb lo c && leb c hi

-- A digit in either case.
unfoldable pub hex_digit : ℕ → Option ℕ
hex_digit c =
    if in_range b'0' b'9' c
    then some (c - 48)
    else if in_range b'a' b'f' c
    then some (c - 87)
    else if in_range b'A' b'F' c
    then some (c - 55)
    else none

-- `hex.DecodeString`: an odd length and a byte that is no digit are errors.
unfoldable pub hex_decode : Bytes → Option Bytes
unfolding hex_digit
hex_decode [] = some []
hex_decode (a ∷ []) = none
hex_decode (a ∷ b ∷ s) = do
  h ← hex_digit a
  l ← hex_digit b
  rest ← hex_decode s
  some ((h * 16 + l) ∷ rest)

unfoldable pub hex_char : ℕ → ℕ
hex_char v = if ltb v 10 then v + 48 else v + 87

unfoldable pub hex_encode : Bytes → Bytes
unfolding hex_char
hex_encode [] = []
hex_encode (b ∷ s) = hex_char (b / 16) ∷ hex_char (b % 16) ∷ hex_encode s

hex_digit-hex_char : (v : ℕ) → v < 16 → hex_digit (hex_char v) ≡ some v
unfolding hex_digit hex_char
hex_digit-hex_char v h = ground arith

pub hex_decode-hex_encode : (s : Bytes) → All IsByte s → hex_decode (hex_encode s) ≡ some s
unfolding hex_decode hex_encode
hex_decode-hex_encode [] h = refl
hex_decode-hex_encode (b ∷ s) h =
    rw
      (
        hex_digit-hex_char (b / 16) (omega arith),
        hex_digit-hex_char (b % 16) (omega arith),
        hex_decode-hex_encode s h.1,
      )
      (ap (λ v. some (v ∷ s)) (omega arith))

hex_digit-lt : (c : ℕ) {v : ℕ} → hex_digit c ≡ some v → v < 16
unfolding hex_digit
hex_digit-lt c h = ground arith

-- Decoding halves the length and gives bytes.
pub hex_decode_sound :
    (s : Bytes) → OnSome (λ b. All IsByte b × (length s ≡ length b + length b)) (hex_decode s)
unfolding hex_decode
hex_decode_sound [] = (tt, omega arith)
hex_decode_sound (a ∷ []) = tt
hex_decode_sound (a ∷ c ∷ s) =
    step (hex_digit a) (hex_digit c) (hex_decode s) (λ v e. hex_digit-lt a e)
      (λ v e. hex_digit-lt c e) (hex_decode_sound s)
  where
    step :
        (h l : Option ℕ) (r : Option Bytes)
        → ((v : ℕ) → h ≡ some v → v < 16)
        → ((v : ℕ) → l ≡ some v → v < 16)
        → OnSome (λ b. All IsByte b × (length s ≡ length b + length b)) r
        → OnSome
            (λ b. All IsByte b × (suc (suc (length s)) ≡ length b + length b))
            (h >>= λ x. l >>= λ y. r >>= λ rest. some ((x * 16 + y) ∷ rest))
    step none l r p q o = tt
    step (some x) none r p q o = tt
    step (some x) (some y) none p q o = tt
    step (some x) (some y) (some b) p q o =
        let hx = p x refl in let hy = q y refl in ((omega arith, o.0), omega arith)
