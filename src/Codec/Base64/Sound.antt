-- ===== src/Codec/Base64/Sound.antt =====
-- What the decoding of Go's `encoding/base64` gives.
use zk_cosmos_eth_bridge.Common.{
  ℕ, Option, none, some, [], ◌∷◌, arith, Bytes, IsByte, All, OnSome, if◌then◌else◌, Bool, true,
  false, ◌==◌, ◌&&◌,
}
use zk_cosmos_eth_bridge.Common.Maybe.{◌>>=◌}
use zk_cosmos_eth_bridge.Codec.Base64.{
  pad, b64_value, strip_newlines, byte0, byte1, byte2, decode_padded, decode_full, decode_quanta,
  base64_decode,
}

OnSome-bind :
    {A B : Type 0} (P : B → Type 0) (o : Option A) (f : A → Option B)
    → ((a : A) → OnSome P (f a))
    → OnSome P (o >>= f)
OnSome-bind P none f h = tt
OnSome-bind P (some a) f h = h a

-- With a rest of bytes the result is bytes.
full-IsByte :
    (x y z w : ℕ) (r : Option Bytes)
    → OnSome (All IsByte) r
    → OnSome (All IsByte) (r >>= λ s. some (byte0 x y ∷ byte1 y z ∷ byte2 z w ∷ s))
full-IsByte x y z w none h = tt
full-IsByte x y z w (some s) h = (omega arith, (omega arith, (omega arith, h)))

decode_full-IsByte :
    (a b c d : ℕ) (r : Option Bytes)
    → OnSome (All IsByte) r
    → OnSome (All IsByte) (decode_full a b c d r)
unfolding decode_full
decode_full-IsByte a b c d r h = OnSome-bind (All IsByte) (b64_value a) _ λ x.
    OnSome-bind (All IsByte) (b64_value b) _ λ y.
      OnSome-bind (All IsByte) (b64_value c) _
        λ z. OnSome-bind (All IsByte) (b64_value d) _ λ w. full-IsByte x y z w r h

OnSome-if :
    {A : Type 0} (P : A → Type 0) (t : Bool) (o p : Option A)
    → OnSome P o
    → OnSome P p
    → OnSome P (if t then o else p)
OnSome-if P true o p h k = h
OnSome-if P false o p h k = k

decode_padded-IsByte : (a b c d : ℕ) → OnSome (All IsByte) (decode_padded a b c d)
unfolding decode_padded
decode_padded-IsByte a b c d =
    OnSome-if (All IsByte) (c == pad && d == pad) _ _
      (OnSome-bind (All IsByte) (b64_value a) _
        λ x. OnSome-bind (All IsByte) (b64_value b) _ λ y. (omega arith, tt))
      (OnSome-if (All IsByte) (d == pad) _ _
        (OnSome-bind (All IsByte) (b64_value a) _ λ x.
          OnSome-bind (All IsByte) (b64_value b) _
            λ y. OnSome-bind (All IsByte) (b64_value c) _ λ z. (omega arith, (omega arith, tt)))
        tt)

decode_quanta-IsByte : (s : Bytes) → OnSome (All IsByte) (decode_quanta s)
unfolding decode_quanta
decode_quanta-IsByte [] = tt
decode_quanta-IsByte (a ∷ []) = tt
decode_quanta-IsByte (a ∷ b ∷ []) = tt
decode_quanta-IsByte (a ∷ b ∷ c ∷ []) = tt
decode_quanta-IsByte (a ∷ b ∷ c ∷ d ∷ []) =
    OnSome-if (All IsByte) (d == pad) _ _ (decode_padded-IsByte a b c d)
      (decode_full-IsByte a b c d (some []) tt)
decode_quanta-IsByte (a ∷ b ∷ c ∷ d ∷ e ∷ s) =
    decode_full-IsByte a b c d (decode_quanta (e ∷ s)) (decode_quanta-IsByte (e ∷ s))

pub base64_decode-IsByte : (s : Bytes) → OnSome (All IsByte) (base64_decode s)
unfolding base64_decode
base64_decode-IsByte s = decode_quanta-IsByte (strip_newlines s)
