-- ===== src/Rpc/EvmHash/Encoded.antt =====
-- `GetEvmHash` of zk-bridge/pkg/rpc/cosmos.go on events whose texts are sent in base64.
use zk_cosmos_eth_bridge.Common.{
  ℕ, ◌%◌, ◌<◌, ◌≡◌, ◌≢◌, refl, ap, sym, ◌∙◌, true, false, ◌||◌, not, List, [], ◌∷◌, map, arith, ltb,
  Bytes, IsByte, All, text_eq, length, &&_split,
}
use mathlib.Core.List.{map-append}
use mathlib.Core.Path.{ap₂}
use zk_cosmos_eth_bridge.Codec.Base64.{base64_encode}
use zk_cosmos_eth_bridge.Codec.Base64.RoundTrip.{base64_decode-base64_encode}
use zk_cosmos_eth_bridge.Rpc.Types.{Attribute, Event, TxResponse}
use zk_cosmos_eth_bridge.Rpc.EvmHash.{
  is_printable, decode_string_if_small, hash_of, attribute_hash, scan_attributes, scan_events,
  all_events, get_evm_hash, or_empty,
}

printable_byte :
    (c : ℕ) (s : Bytes) → is_printable (c ∷ s) ≡ true → (c < 256) × (is_printable s ≡ true)
unfolding is_printable
printable_byte c s h = ground (arith, &&_split (not (ltb c 32 || ltb 126 c)) (is_printable s) h)

printable-IsByte : (s : Bytes) → is_printable s ≡ true → All IsByte s
printable-IsByte [] h = tt
printable-IsByte (c ∷ s) h =
    let (byte, rest) = printable_byte c s h in (byte, printable-IsByte s rest)

base64_encode-quanta : (s : Bytes) → length (base64_encode s) % 4 ≡ 0
unfolding base64_encode
base64_encode-quanta [] = refl
base64_encode-quanta (x ∷ []) = refl
base64_encode-quanta (x ∷ y ∷ []) = refl
base64_encode-quanta (x ∷ y ∷ z ∷ s) = omega (arith, base64_encode-quanta s)

base64_encode-ne-nil : (s : Bytes) → s ≢ [] → text_eq (base64_encode s) [] ≡ false
unfolding base64_encode
base64_encode-ne-nil [] h = absurd (h refl)
base64_encode-ne-nil (x ∷ []) h = refl
base64_encode-ne-nil (x ∷ y ∷ []) h = refl
base64_encode-ne-nil (x ∷ y ∷ z ∷ s) h = refl

-- A printable text that is not empty is decoded from its base64.
pub decode_string_if_small-base64_encode :
    (s : Bytes) → s ≢ [] → is_printable s ≡ true → decode_string_if_small (base64_encode s) ≡ s
unfolding decode_string_if_small
decode_string_if_small-base64_encode s h p = rw (
  base64_encode-ne-nil s h,
  base64_encode-quanta s,
  base64_decode-base64_encode s (printable-IsByte s p),
  p,
)

-- A text that is printable and is read as itself, not as base64.
pub record IsPlain (s : Bytes) : Type 0 where
  pub nonempty : s ≢ []
  pub printable : is_printable s ≡ true
  pub kept : decode_string_if_small s ≡ s

pub record IsPlainAttribute (a : Attribute) : Type 0 where
  pub key : IsPlain a.key
  pub value : IsPlain a.value

pub record IsPlainEvent (e : Event) : Type 0 where
  pub type : IsPlain e.type
  pub attributes : All IsPlainAttribute e.attributes

abbrev pub encode_attribute : Attribute → Attribute
encode_attribute a = record { key = base64_encode a.key; value = base64_encode a.value }

abbrev pub encode_event : Event → Event
encode_event e = record {
  type = base64_encode e.type;
  attributes = map encode_attribute e.attributes;
}

-- The response of a node that sends the texts of its events in base64.
abbrev pub encode_response : TxResponse → TxResponse
encode_response r = record r {
  events = map encode_event r.events;
  result = record (r.result) {
    events = map encode_event r.result.events;
    tx_result = record (r.result.tx_result) { events = map encode_event r.result.tx_result.events };
  };
}

encoded_same :
    (s : Bytes) → IsPlain s → decode_string_if_small (base64_encode s) ≡ decode_string_if_small s
encoded_same s p = decode_string_if_small-base64_encode s p.nonempty p.printable ∙ sym p.kept

attribute_hash-encode :
    (a : Attribute) → IsPlainAttribute a → attribute_hash (encode_attribute a) ≡ attribute_hash a
unfolding attribute_hash
attribute_hash-encode a p = ap₂ hash_of (encoded_same a.key p.key) (encoded_same a.value p.value)

scan_attributes-encode :
    (attrs : List Attribute)
    → All IsPlainAttribute attrs
    → scan_attributes (map encode_attribute attrs) ≡ scan_attributes attrs
unfolding scan_attributes
scan_attributes-encode [] h = refl
scan_attributes-encode (a ∷ attrs) h =
    ground (arith, attribute_hash-encode a h.0, scan_attributes-encode attrs h.1)

scan_events-encode :
    (es : List Event) → All IsPlainEvent es → scan_events (map encode_event es) ≡ scan_events es
unfolding scan_events
scan_events-encode [] h = refl
scan_events-encode (e ∷ es) h = ground (
  arith,
  encoded_same e.type h.0.type,
  scan_attributes-encode e.attributes h.0.attributes,
  scan_events-encode es h.1,
)

all_events-encode :
    (r : TxResponse) → all_events (encode_response r) ≡ map encode_event (all_events r)
all_events-encode r = simp map-append

-- Events whose texts are printable and not themselves base64 of a printable text give the same
-- hash in base64 as they are.
pub get_evm_hash-encode_response :
    (r : TxResponse)
    → All IsPlainEvent (all_events r)
    → get_evm_hash (encode_response r) ≡ get_evm_hash r
unfolding get_evm_hash
get_evm_hash-encode_response r h =
    ap (λ es. or_empty (scan_events es)) (all_events-encode r)
    ∙ ap or_empty (scan_events-encode (all_events r) h)
