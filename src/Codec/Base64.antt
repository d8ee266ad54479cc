-- ===== src/Codec/Base64.antt =====
-- `encoding/base64`: StdEncoding.DecodeString, and EncodeToString to state what it accepts.
pub mod RoundTrip
pub mod Sound
use zk_cosmos_eth_bridge.Common.{
  ℕ, ◌+◌, ◌-◌, ◌*◌, ◌/◌, ◌%◌, Bool, ◌&&◌, ◌||◌, Option, none, some, List, [], ◌∷◌, leb, ltb, ◌==◌,
  if◌then◌else◌, Bytes,
}
use zk_cosmos_eth_bridge.Common.Maybe.{◌>>=◌}
use zk_cosmos_eth_bridge.Codec.Hex.{in_range}

-- `=`
abbrev pub pad : ℕ
pad = 61

pub b64_value : ℕ → Option ℕ
b64_value c =
    if in_range b'A' b'Z' c
    then some (c - 65)
    else if in_range b'a' b'z' c
    then some (c - 71)
    else if in_range b'0' b'9' c
    then some (c + 4)
    else if c == b'+'
    then some 62
    else if c == b'/'
    then some 63
    else none

-- Go's decoder skips line feeds and carriage returns wherever they stand.
unfoldable pub strip_newlines : Bytes → Bytes
strip_newlines [] = []
strip_newlines (c ∷ s) =
    let rest = strip_newlines s in if c == 10 || c == 13 then rest else c ∷ rest

abbrev pub byte0 : ℕ → ℕ → ℕ
byte0 a b = (a * 4 + b / 16) % 256

abbrev pub byte1 : ℕ → ℕ → ℕ
byte1 b c = (b * 16 + c / 4) % 256

abbrev pub byte2 : ℕ → ℕ → ℕ
byte2 c d = (c * 64 + d) % 256

-- The last quantum of a text, with one or two padding characters. The bits that a padded quantum
-- does not use may be anything (StdEncoding is not strict).
pub decode_padded : ℕ → ℕ → ℕ → ℕ → Option Bytes
decode_padded a b c d =
    if c == pad && d == pad
    then (do x ← b64_value a; y ← b64_value b; some (byte0 x y ∷ []))
    else if d == pad
    then (do x ← b64_value a; y ← b64_value b; z ← b64_value c; some (byte0 x y ∷ byte1 y z ∷ []))
    else none

-- Four characters that all have a value, and the rest of the text.
pub decode_full : ℕ → ℕ → ℕ → ℕ → Option Bytes → Option Bytes
decode_full a b c d rest = do
  x ← b64_value a
  y ← b64_value b
  z ← b64_value c
  w ← b64_value d
  r ← rest
  some (byte0 x y ∷ byte1 y z ∷ byte2 z w ∷ r)

-- Quantum by quantum. Padding ends the text, and a quantum may not be cut off.
unfoldable pub decode_quanta : Bytes → Option Bytes
unfolding decode_padded decode_full b64_value
decode_quanta [] = some []
decode_quanta (a ∷ []) = none
decode_quanta (a ∷ b ∷ []) = none
decode_quanta (a ∷ b ∷ c ∷ []) = none
decode_quanta (a ∷ b ∷ c ∷ d ∷ []) =
    if d == pad then decode_padded a b c d else decode_full a b c d (some [])
decode_quanta (a ∷ b ∷ c ∷ d ∷ e ∷ s) = decode_full a b c d (decode_quanta (e ∷ s))

unfoldable pub base64_decode : Bytes → Option Bytes
unfolding strip_newlines decode_quanta
base64_decode s = decode_quanta (strip_newlines s)

unfoldable pub b64_char : ℕ → ℕ
b64_char v =
    if ltb v 26
    then v + 65
    else if ltb v 52
    then v + 71
    else if ltb v 62
    then v - 4
    else if v == 62
    then b'+'
    else b'/'

unfoldable pub base64_encode : Bytes → Bytes
unfolding b64_char
base64_encode [] = []
base64_encode (x ∷ []) = b64_char (x / 4) ∷ b64_char (x % 4 * 16) ∷ pad ∷ pad ∷ []
base64_encode (x ∷ y ∷ []) =
    b64_char (x / 4) ∷ b64_char (x % 4 * 16 + y / 16) ∷ b64_char (y % 16 * 4) ∷ pad ∷ []
base64_encode (x ∷ y ∷ z ∷ s) =
    b64_char (x / 4)
    ∷ b64_char (x % 4 * 16 + y / 16)
    ∷ b64_char (y % 16 * 4 + z / 64)
    ∷ b64_char (z % 64)
    ∷ base64_encode s
