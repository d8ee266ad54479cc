-- ===== src/Codec/Base64/RoundTrip.antt =====
-- Encoding and decoding of Go's `encoding/base64` together.
use zk_cosmos_eth_bridge.Common.{
  ℕ, zero, suc, none, length, ◌≢◌, ◌+◌, ◌*◌, ◌/◌, ◌%◌, ◌<◌, ◌≡◌, refl, ap, ◌∙◌, some, [], ◌∷◌,
  arith, Bytes, IsByte, All, ◌==◌, false,
}
use zk_cosmos_eth_bridge.Codec.Base64.{
  pad, b64_value, strip_newlines, byte0, byte1, byte2, decode_full, decode_quanta, base64_decode,
  b64_char, base64_encode,
}

b64_value-b64_char : (v : ℕ) → v < 64 → b64_value (b64_char v) ≡ some v
unfolding b64_value b64_char
b64_value-b64_char v h = ground arith

b64_char-ne-pad : (v : ℕ) → (b64_char v == pad) ≡ false
unfolding b64_char
b64_char-ne-pad v = ground arith

strip_newlines-b64_char :
    (v : ℕ) (s : Bytes) → strip_newlines (b64_char v ∷ s) ≡ b64_char v ∷ strip_newlines s
unfolding strip_newlines b64_char
strip_newlines-b64_char v s = ground arith

strip_newlines-pad : (s : Bytes) → strip_newlines (pad ∷ s) ≡ pad ∷ strip_newlines s
unfolding strip_newlines
strip_newlines-pad s = refl

strip_newlines-nil : strip_newlines [] ≡ []
unfolding strip_newlines
strip_newlines-nil = refl

-- An encoded text has no line breaks.
pub strip_newlines-base64_encode : (s : Bytes) → strip_newlines (base64_encode s) ≡ base64_encode s
unfolding base64_encode
strip_newlines-base64_encode [] = strip_newlines-nil
strip_newlines-base64_encode (x ∷ []) =
    simp (strip_newlines-b64_char, strip_newlines-pad, strip_newlines-nil)
strip_newlines-base64_encode (x ∷ y ∷ []) =
    simp (strip_newlines-b64_char, strip_newlines-pad, strip_newlines-nil)
strip_newlines-base64_encode (x ∷ y ∷ z ∷ s) =
    simp (strip_newlines-b64_char, strip_newlines-base64_encode s)

decode_full-b64_char :
    (a b c d : ℕ) (r : Bytes)
    → a < 64
    → b < 64
    → c < 64
    → d < 64
    → decode_full (b64_char a) (b64_char b) (b64_char c) (b64_char d) (some r)
      ≡ some (byte0 a b ∷ byte1 b c ∷ byte2 c d ∷ r)
unfolding decode_full
decode_full-b64_char a b c d r ha hb hc hd = rw (
  b64_value-b64_char a ha,
  b64_value-b64_char b hb,
  b64_value-b64_char c hc,
  b64_value-b64_char d hd,
)

-- A quantum of four characters with values, in front of any text that decodes.
decode_quanta-full :
    (a b c d : ℕ) (s r : Bytes)
    → a < 64
    → b < 64
    → c < 64
    → d < 64
    → decode_quanta s ≡ some r
    → decode_quanta (b64_char a ∷ b64_char b ∷ b64_char c ∷ b64_char d ∷ s)
      ≡ some (byte0 a b ∷ byte1 b c ∷ byte2 c d ∷ r)
unfolding decode_quanta
decode_quanta-full a b c d [] r ha hb hc hd e =
    rw (b64_char-ne-pad d, decode_full-b64_char a b c d [] ha hb hc hd) (ground (arith, e))
decode_quanta-full a b c d (x ∷ s) r ha hb hc hd e =
    rw e (decode_full-b64_char a b c d r ha hb hc hd)

byte0_lem : (x y : ℕ) → x < 256 → y < 256 → byte0 (x / 4) (x % 4 * 16 + y / 16) ≡ x
byte0_lem x y h k = omega arith

byte0_last : (x : ℕ) → x < 256 → byte0 (x / 4) (x % 4 * 16) ≡ x
byte0_last x h = omega arith

byte1_lem : (x y z : ℕ) → y < 256 → z < 256 → byte1 (x % 4 * 16 + y / 16) (y % 16 * 4 + z / 64) ≡ y
byte1_lem x y z h k = omega arith

byte1_last : (x y : ℕ) → y < 256 → byte1 (x % 4 * 16 + y / 16) (y % 16 * 4) ≡ y
byte1_last x y h = omega arith

byte2_lem : (y z : ℕ) → z < 256 → byte2 (y % 16 * 4 + z / 64) (z % 64) ≡ z
byte2_lem y z h = omega arith

decode_quanta-two_pads :
    (a b : ℕ)
    → a < 64
    → b < 64
    → decode_quanta (b64_char a ∷ b64_char b ∷ pad ∷ pad ∷ []) ≡ some (byte0 a b ∷ [])
unfolding decode_quanta
decode_quanta-two_pads a b ha hb = rw (b64_value-b64_char a ha, b64_value-b64_char b hb)

decode_quanta-one_pad :
    (a b c : ℕ)
    → a < 64
    → b < 64
    → c < 64
    → decode_quanta (b64_char a ∷ b64_char b ∷ b64_char c ∷ pad ∷ [])
      ≡ some (byte0 a b ∷ byte1 b c ∷ [])
unfolding decode_quanta
decode_quanta-one_pad a b c ha hb hc =
    rw
      (b64_char-ne-pad c, b64_value-b64_char a ha, b64_value-b64_char b hb, b64_value-b64_char c hc)

decode_quanta-nil : decode_quanta [] ≡ some []
unfolding decode_quanta
decode_quanta-nil = refl

decode_quanta-base64_encode : (s : Bytes) → All IsByte s → decode_quanta (base64_encode s) ≡ some s
unfolding base64_encode
decode_quanta-base64_encode [] h = decode_quanta-nil
decode_quanta-base64_encode (x ∷ []) h =
    decode_quanta-two_pads (x / 4) (x % 4 * 16) (omega arith) (omega arith)
    ∙ ap (λ v. some (v ∷ [])) (byte0_last x h.0)
decode_quanta-base64_encode (x ∷ y ∷ []) h =
    decode_quanta-one_pad (x / 4) (x % 4 * 16 + y / 16) (y % 16 * 4) (omega arith) (omega arith)
      (omega arith)
    ∙ cc (byte0_lem x y h.0 h.1.0, byte1_last x y h.1.0)
decode_quanta-base64_encode (x ∷ y ∷ z ∷ s) h =
    decode_quanta-full (x / 4) (x % 4 * 16 + y / 16) (y % 16 * 4 + z / 64) (z % 64)
      (base64_encode s) s (omega arith) (omega arith) (omega arith) (omega arith)
      (decode_quanta-base64_encode s h.1.1.1)
    ∙ cc (byte0_lem x y h.0 h.1.0, byte1_lem x y z h.1.0 h.1.1.0, byte2_lem y z h.1.1.0)

pub base64_decode-base64_encode :
    (s : Bytes) → All IsByte s → base64_decode (base64_encode s) ≡ some s
unfolding base64_decode
base64_decode-base64_encode s h =
    rw (strip_newlines-base64_encode s) (decode_quanta-base64_encode s h)

decode_full-none : (a b c d : ℕ) → decode_full a b c d none ≡ none
unfolding decode_full
decode_full-none a b c d = ground arith

-- A text that is cut off in a quantum is no base64 text.
pub decode_quanta-cut : (s : Bytes) → length s % 4 ≢ 0 → decode_quanta s ≡ none
unfolding decode_quanta
decode_quanta-cut [] h = absurd (h refl)
decode_quanta-cut (a ∷ []) h = refl
decode_quanta-cut (a ∷ b ∷ []) h = refl
decode_quanta-cut (a ∷ b ∷ c ∷ []) h = refl
decode_quanta-cut (a ∷ b ∷ c ∷ d ∷ []) h = absurd (h refl)
decode_quanta-cut (a ∷ b ∷ c ∷ d ∷ e ∷ s) h =
    ap (decode_full a b c d) (decode_quanta-cut (e ∷ s) (λ q. h (omega arith)))
    ∙ decode_full-none a b c d

-- The length of the base64 text of `k` triples and two bytes.
pub length-base64_encode :
    (k : ℕ) (b : Bytes) → length b ≡ 3 * k + 2 → length (base64_encode b) ≡ 4 * k + 4
unfolding base64_encode
length-base64_encode zero [] n = absurd (omega arith)
length-base64_encode zero (x ∷ []) n = absurd (omega arith)
length-base64_encode zero (x ∷ y ∷ []) n = refl
length-base64_encode zero (x ∷ y ∷ z ∷ s) n = absurd (omega arith)
length-base64_encode (suc k) [] n = absurd (omega arith)
length-base64_encode (suc k) (x ∷ []) n = absurd (omega arith)
length-base64_encode (suc k) (x ∷ y ∷ []) n = absurd (omega arith)
length-base64_encode (suc k) (x ∷ y ∷ z ∷ s) n =
    omega (arith, length-base64_encode k s (omega arith))
