-- ===== src/Rpc/Hash/Laws.antt =====
-- What `DecodeHash` of zk-bridge/pkg/rpc/cosmos.go accepts.
use zk_cosmos_eth_bridge.Common.{
  ℕ, ◌+◌, ◌%◌, ◌<◌, ◌≡◌, ◌≢◌, refl, ap, ◌∙◌, Option, none, some, [], ◌∷◌, ◌++◌, arith, Bytes,
  IsByte, All, OnSome, length, codes, strip_prefix, trim_prefix, ok, err,
}
use mathlib.Core.Path.{subst}
use zk_cosmos_eth_bridge.Codec.Base64.Sound.{base64_decode-IsByte}
use zk_cosmos_eth_bridge.Common.{Bool-cases, ◌⊎◌, inl, inr, true, false, ◌==◌, ==_iff, panic}
use zk_cosmos_eth_bridge.Codec.Hex.{
  hex_decode, hex_encode, hex_char, hex_decode_sound, hex_decode-hex_encode,
}
use zk_cosmos_eth_bridge.Codec.Base64.{base64_decode, base64_encode, decode_quanta, strip_newlines}
use zk_cosmos_eth_bridge.Codec.Base64.RoundTrip.{
  base64_decode-base64_encode, strip_newlines-base64_encode, decode_quanta-cut,
  length-base64_encode,
}
use zk_cosmos_eth_bridge.Rpc.Hash.{invalid_hash_format, only_32, pick, decode_trimmed, decode_hash}

length-hex_encode : (b : Bytes) → length (hex_encode b) ≡ length b + length b
unfolding hex_encode
length-hex_encode [] = omega arith
length-hex_encode (x ∷ b) = omega (arith, length-hex_encode b)

-- `x` is no hex digit that the encoder writes.
hex_char-ne-x : (v : ℕ) → v < 16 → hex_char v ≢ b'x'
unfolding hex_char
hex_char-ne-x v h = ground arith

trim_prefix-hex_encode :
    (b : Bytes) → All IsByte b → trim_prefix (hex_encode b) (codes "0x") ≡ hex_encode b
unfolding hex_encode
trim_prefix-hex_encode [] h = refl
trim_prefix-hex_encode (x ∷ b) h = ground (arith, hex_char-ne-x (x % 16) (omega arith))

trim_prefix-none : (t : Bytes) → strip_prefix (codes "0x") t ≡ none → trim_prefix t (codes "0x") ≡ t
trim_prefix-none t e = ground (arith, e)

trim_prefix-some :
    (t s : Bytes) → strip_prefix (codes "0x") t ≡ some s → trim_prefix t (codes "0x") ≡ s
trim_prefix-some t s e = ground (arith, e)

strip_prefix-some : (t s : Bytes) → strip_prefix (codes "0x") t ≡ some s → t ≡ codes "0x" ++ s
strip_prefix-some [] s e = cc
strip_prefix-some (x ∷ []) s e = ground arith
strip_prefix-some (x ∷ y ∷ t) s e = ground arith

only_32-some : (b : Bytes) → length b ≡ 32 → only_32 (some b) ≡ some b
only_32-some b h = ground arith

decode_hash_lem : (t : Bytes) → decode_hash t ≡ decode_trimmed (trim_prefix t (codes "0x"))
unfolding decode_hash
decode_hash_lem t = refl

-- A text of fewer than 64 characters is not the hex text of a hash.
only_32-hex_decode_short : (s : Bytes) → length s < 64 → only_32 (hex_decode s) ≡ none
only_32-hex_decode_short s h = split (hex_decode s) (hex_decode_sound s)
  where
    split :
        (o : Option Bytes)
        → OnSome (λ b. All IsByte b × (length s ≡ length b + length b)) o
        → only_32 o ≡ none
    split none p = refl
    split (some b) p = ground (arith, p.1)

decode_trimmed-hex_encode :
    (b : Bytes) → All IsByte b → length b ≡ 32 → decode_trimmed (hex_encode b) ≡ ok b
unfolding decode_trimmed
decode_trimmed-hex_encode b h n =
    ap (λ o. pick (only_32 o) (only_32 (base64_decode (hex_encode b))) (hex_encode b))
      (hex_decode-hex_encode b h)
    ∙ ap (λ o. pick o (only_32 (base64_decode (hex_encode b))) (hex_encode b)) (only_32-some b n)

-- The hex text of 32 bytes is decoded to those bytes, with `0x` in front and without.
decode_hash-hex_encode :
    (b : Bytes)
    → All IsByte b
    → length b ≡ 32
    → (decode_hash (hex_encode b) ≡ ok b) × (decode_hash (codes "0x" ++ hex_encode b) ≡ ok b)
decode_hash-hex_encode b h n = (
  decode_hash_lem (hex_encode b)
      ∙ ap decode_trimmed (trim_prefix-hex_encode b h)
      ∙ decode_trimmed-hex_encode b h n,
  decode_hash_lem (codes "0x" ++ hex_encode b) ∙ decode_trimmed-hex_encode b h n,
)

-- A short text is decoded as base64 or not at all.
decode_trimmed_short :
    (s : Bytes) → length s < 64 → decode_trimmed s ≡ pick none (only_32 (base64_decode s)) s
unfolding decode_trimmed
decode_trimmed_short s h =
    ap (λ o. pick o (only_32 (base64_decode s)) s) (only_32-hex_decode_short s h)

-- What is left of an encoded text behind its first two characters has no line breaks either.
strip_newlines-rest : (b s : Bytes) → base64_encode b ≡ codes "0x" ++ s → strip_newlines s ≡ s
unfolding strip_newlines
strip_newlines-rest b s e = cc (strip_newlines-base64_encode b)

base64_decode_cut :
    (b s : Bytes) → base64_encode b ≡ codes "0x" ++ s → length s % 4 ≢ 0 → base64_decode s ≡ none
unfolding base64_decode
base64_decode_cut b s e h = ap decode_quanta (strip_newlines-rest b s e) ∙ decode_quanta-cut s h

-- The base64 text of 32 bytes is decoded to those bytes, unless the text begins with the
-- characters `0x`: they are taken for a hex prefix and the hash is refused.
decode_hash-base64_encode :
    (b : Bytes)
    → All IsByte b
    → length b ≡ 32
    → decode_hash (base64_encode b) ≡ elim (strip_prefix (codes "0x") (base64_encode b)) [
      | none ↦ ok b
      | some s ↦ err (invalid_hash_format s)
    ]
decode_hash-base64_encode b h n = split (strip_prefix (codes "0x") (base64_encode b)) refl
  where
    split :
        (o : Option Bytes)
        → strip_prefix (codes "0x") (base64_encode b) ≡ o
        → decode_hash (base64_encode b)
          ≡ elim o [ none ↦ ok b | some s ↦ err (invalid_hash_format s) ]
    split none e =
        decode_hash_lem (base64_encode b)
        ∙ ap decode_trimmed (trim_prefix-none (base64_encode b) e)
        ∙ decode_trimmed_short (base64_encode b) (omega (arith, length-base64_encode 10 b n))
        ∙ ap (λ o. pick none (only_32 o) (base64_encode b)) (base64_decode-base64_encode b h)
        ∙ ap (λ o. pick none o (base64_encode b)) (only_32-some b n)
    split (some s) e =
        let shape = strip_prefix-some (base64_encode b) s e in
        let short : length s ≡ 42 = omega (arith, ap length shape, length-base64_encode 10 b n) in
        decode_hash_lem (base64_encode b)
        ∙ ap decode_trimmed (trim_prefix-some (base64_encode b) s e)
        ∙ decode_trimmed_short s (omega arith)
        ∙ ap (λ o. pick none (only_32 o) s) (base64_decode_cut b s shape (omega arith))

-- A hash: 32 bytes.
abbrev pub IsHash : Bytes → Type 0
IsHash b = All IsByte b × (length b ≡ 32)

only_32-IsHash : (o : Option Bytes) → OnSome (All IsByte) o → OnSome IsHash (only_32 o)
only_32-IsHash none h = tt
only_32-IsHash (some b) h = split (Bool-cases (length b == 32))
  where
    split :
        ((length b == 32) ≡ true) ⊎ ((length b == 32) ≡ false) → OnSome IsHash (only_32 (some b))
    split (inl e) = rw e (h, (==_iff (length b) 32).0 e)
    split (inr e) = rw e tt

OnSome-map :
    {A : Type 0} (P Q : A → Type 0) (o : Option A) → ((a : A) → P a → Q a) → OnSome P o → OnSome Q o
OnSome-map P Q none f h = tt
OnSome-map P Q (some a) f h = f a h

-- The hex text of 32 bytes is decoded to those bytes, with `0x` in front and without. So is their
-- base64 text, unless it begins with the characters `0x`: they are taken for a hex prefix and the
-- hash is refused.
pub decode_hash-encoded :
    (b : Bytes)
    → All IsByte b
    → length b ≡ 32
    → (decode_hash (hex_encode b) ≡ ok b)
      × (decode_hash (codes "0x" ++ hex_encode b) ≡ ok b)
      × (decode_hash (base64_encode b) ≡ elim (strip_prefix (codes "0x") (base64_encode b)) [
        | none ↦ ok b
        | some s ↦ err (invalid_hash_format s)
      ])
decode_hash-encoded b h n =
    let (plain, prefixed) = decode_hash-hex_encode b h n in
    (plain, prefixed, decode_hash-base64_encode b h n)

pick_sound :
    (o p : Option Bytes) (s b : Bytes)
    → OnSome IsHash o
    → OnSome IsHash p
    → pick o p s ≡ ok b
    → IsHash b
pick_sound (some c) p s b h k e = let same : c ≡ b = cc in subst IsHash same h
pick_sound none (some c) s b h k e = let same : c ≡ b = cc in subst IsHash same k
pick_sound none none s b h k e = cc

-- What `DecodeHash` accepts is decoded to 32 bytes.
pub decode_hash_sound : (t : Bytes) {b : Bytes} → decode_hash t ≡ ok b → IsHash b
unfolding decode_hash
decode_hash_sound t {b} e =
    let s = trim_prefix t (codes "0x") in
    pick_sound (only_32 (hex_decode s)) (only_32 (base64_decode s)) s b
      (only_32-IsHash (hex_decode s)
        (OnSome-map _ (All IsByte) (hex_decode s) (λ a p. p.0) (hex_decode_sound s)))
      (only_32-IsHash (base64_decode s) (base64_decode-IsByte s)) e

-- A hash or an error: there is no other way to end.
pub decode_hash_no_panic : (t : Bytes) → decode_hash t ≢ panic
unfolding decode_hash
decode_hash_no_panic t =
    let s = trim_prefix t (codes "0x") in go (only_32 (hex_decode s)) (only_32 (base64_decode s)) s
  where
    go : (o p : Option Bytes) (s : Bytes) → pick o p s ≢ panic
    go (some c) p s e = cc
    go none (some c) s e = cc
    go none none s e = cc
