-- ===== src/Circuit/Unpack.antt =====
-- `unpack` of zk-bridge/pkg/circuits/bridge.go and the big-endian packing.
use zk_cosmos_eth_bridge.Common.{
  ℕ, zero, suc, ◌*◌, ◌/◌, ◌^◌, ◌<◌, ◌≡◌, refl, ap, sym, ◌∙◌, Option, none, some, Bool, true, false,
  List, [], ◌∷◌, ◌++◌, arith, ltb, if◌then◌else◌, Bytes, IsByte, All, length, take, drop,
  length-take, length-drop, All-take, All-drop, take-append-drop, lt→ltb, ltb→lt,
}
use zk_cosmos_eth_bridge.Common.Maybe.{◌>>=◌, >>=-eq-some}
use zk_cosmos_eth_bridge.Codec.BigEndian.{
  be_uint64, byte_at, be_bytes, be_bytes-be_value, pack_words,
}
use zk_cosmos_eth_bridge.Circuit.Api.{Api, IsGnark, bits_of, bits_value}
use zk_cosmos_eth_bridge.Circuit.Define.{unpack_bytes, unpack_word, unpack}

abbrev up8 : ℕ → ℕ
up8 m = suc (suc (suc (suc (suc (suc (suc (suc m)))))))

-- `m` and eight more, `j` times.
abbrev grow : ℕ → ℕ → ℕ
grow zero m = m
grow (suc j) m = up8 (grow j m)

eight_halvings : (v : ℕ) → v / 2 / 2 / 2 / 2 / 2 / 2 / 2 / 2 ≡ v / 256
eight_halvings v = omega arith

-- Byte `j` of a word is read from its bits.
bits_value-byte_at :
    (j m v : ℕ) → bits_value (take 8 (drop (grow j 0) (bits_of (grow j (up8 m)) v))) ≡ byte_at j v
unfolding byte_at bits_of bits_value
bits_value-byte_at zero m v = omega arith
bits_value-byte_at (suc j) m v = rw (eight_halvings v) (bits_value-byte_at j m (v / 256))

module _ (api : Api) (gnark : IsGnark api) where
  from_binary-byte :
      (j m v : ℕ)
      → grow j (up8 m) ≡ 64
      → api.from_binary (take 8 (drop (grow j 0) (bits_of 64 v))) ≡ byte_at j v
  from_binary-byte j m v e =
      gnark.from_binary_lem _
      ∙ ap (λ n. bits_value (take 8 (drop (grow j 0) (bits_of n v)))) (sym e)
      ∙ bits_value-byte_at j m v

  unpack_bytes-bits_of :
      (v : ℕ) → unpack_bytes api (bits_of 64 v) (7 ∷ 6 ∷ 5 ∷ 4 ∷ 3 ∷ 2 ∷ 1 ∷ 0 ∷ []) ≡ be_bytes v
  unfolding unpack_bytes
  unpack_bytes-bits_of v = cc (
    from_binary-byte 7 0 v refl,
    from_binary-byte 6 8 v refl,
    from_binary-byte 5 16 v refl,
    from_binary-byte 4 24 v refl,
    from_binary-byte 3 32 v refl,
    from_binary-byte 2 40 v refl,
    from_binary-byte 1 48 v refl,
    from_binary-byte 0 56 v refl,
  )

  -- A word of 64 bits is unpacked into its bytes; for a larger one there is no assignment.
  pub unpack_word_lem :
      (v : ℕ) → unpack_word api v ≡ (if ltb v (2 ^ 64) then some (be_bytes v) else none)
  unfolding unpack_word
  unpack_word_lem v = ap (λ o. o >>= read) (gnark.to_binary_lem v 64) ∙ split (ltb v (2 ^ 64))
    where
      read : List ℕ → Option Bytes
      read bits = some (unpack_bytes api bits (7 ∷ 6 ∷ 5 ∷ 4 ∷ 3 ∷ 2 ∷ 1 ∷ 0 ∷ []))

      split :
          (b : Bool)
          → ((if b then some (bits_of 64 v) else none) >>= read)
            ≡ (if b then some (be_bytes v) else none)
      split true = ap some (unpack_bytes-bits_of v)
      split false = refl

  -- Under gnark's guarantees, the words of `n * 8` bytes are unpacked into those bytes.
  pub unpack-pack_words :
      (n : ℕ) (s : Bytes) → length s ≡ n * 8 → All IsByte s → unpack api (pack_words n s) ≡ some s
  unfolding unpack pack_words
  unpack-pack_words zero [] h p = refl
  unpack-pack_words zero (x ∷ s) h p = absurd (omega arith)
  unpack-pack_words (suc n) s h p =
      let whole = take-append-drop 8 s in
      let (fits, same) =
        be_bytes-be_value (take 8 s) (omega (arith, length-take 8 s)) (All-take IsByte 8 s p) in
      let rest =
        unpack-pack_words n (drop 8 s) (omega (arith, length-drop 8 s)) (All-drop IsByte 8 s p) in
      let first : unpack_word api (be_uint64 s) ≡ some (be_bytes (be_uint64 s)) =
        unpack_word_lem (be_uint64 s)
        ∙ ap (λ b. if b then some (be_bytes (be_uint64 s)) else none) (lt→ltb _ _ fits) in
      rw (first, rest) (ap some (ap (λ b. b ++ drop 8 s) same ∙ whole))

abbrev pub FitsWord : ℕ → Type 0
FitsWord w = w < 2 ^ 64

-- The bytes of the words, eight for each.
unfoldable pub words_bytes : List ℕ → Bytes
words_bytes [] = []
words_bytes (w ∷ ws) = be_bytes w ++ words_bytes ws

module _ (api : Api) (gnark : IsGnark api) where
  pub unpack-words_bytes : (ws : List ℕ) → All FitsWord ws → unpack api ws ≡ some (words_bytes ws)
  unfolding unpack words_bytes
  unpack-words_bytes [] h = refl
  unpack-words_bytes (w ∷ ws) h =
      let first : unpack_word api w ≡ some (be_bytes w) =
        unpack_word_lem api gnark w
        ∙ ap (λ b. if b then some (be_bytes w) else none) (lt→ltb _ _ h.0) in
      rw (first, unpack-words_bytes ws h.1)

  unpack_word_sound :
      (w : ℕ) {b : Bytes} → unpack_word api w ≡ some b → FitsWord w × (b ≡ be_bytes w)
  unpack_word_sound w {b} e = split (ltb w (2 ^ 64)) refl (sym (unpack_word_lem api gnark w) ∙ e)
    where
      split :
          (fits : Bool)
          → ltb w (2 ^ 64) ≡ fits
          → (if fits then some (be_bytes w) else none) ≡ some b
          → FitsWord w × (b ≡ be_bytes w)
      split false f h = cc
      split true f h = (ltb→lt w (2 ^ 64) f, cc)

  pub unpack_sound :
      (ws : List ℕ) {b : Bytes} → unpack api ws ≡ some b → All FitsWord ws × (b ≡ words_bytes ws)
  unfolding unpack words_bytes
  unpack_sound [] e = (tt, cc)
  unpack_sound (w ∷ ws) e =
      let (bytes, first, e1) = >>=-eq-some (unpack_word api w) _ e in
      let (rest, second, e2) = >>=-eq-some (unpack api ws) _ e1 in
      let (fits, same) = unpack_word_sound w first in
      let (all_fit, same_rest) = unpack_sound ws second in ((fits, all_fit), cc)

-- Packing loses nothing.
pub words_bytes-pack_words :
    (n : ℕ) (s : Bytes) → length s ≡ n * 8 → All IsByte s → words_bytes (pack_words n s) ≡ s
unfolding words_bytes pack_words
words_bytes-pack_words zero [] h p = refl
words_bytes-pack_words zero (x ∷ s) h p = absurd (omega arith)
words_bytes-pack_words (suc n) s h p =
    let (_, same) =
      be_bytes-be_value (take 8 s) (omega (arith, length-take 8 s)) (All-take IsByte 8 s p) in
    let rest =
      words_bytes-pack_words n (drop 8 s) (omega (arith, length-drop 8 s))
        (All-drop IsByte 8 s p) in
    ap (λ r. be_bytes (be_uint64 s) ++ r) rest ∙ ap (λ b. b ++ drop 8 s) same ∙ take-append-drop 8 s

pub pack_words-FitsWord :
    (n : ℕ) (s : Bytes) → length s ≡ n * 8 → All IsByte s → All FitsWord (pack_words n s)
unfolding pack_words
pack_words-FitsWord zero s h p = tt
pack_words-FitsWord (suc n) s h p = (
  (be_bytes-be_value (take 8 s) (omega (arith, length-take 8 s)) (All-take IsByte 8 s p)).0,
  pack_words-FitsWord n (drop 8 s) (omega (arith, length-drop 8 s)) (All-drop IsByte 8 s p),
)
