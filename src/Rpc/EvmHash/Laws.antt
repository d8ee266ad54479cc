-- ===== src/Rpc/EvmHash/Laws.antt =====
-- Which hash `GetEvmHash` of zk-bridge/pkg/rpc/cosmos.go returns.
use zk_cosmos_eth_bridge.Common.{
  ◌≤◌, ◌≡◌, refl, ◌⊎◌, inl, inr, Bool, true, false, ◌&&◌, Option, none, some, List, [], ◌∷◌, ◌++◌,
  arith, leb, if◌then◌else◌, Bytes, OnSome, codes, has_prefix, length, Bool-cases, leb→le,
}
use zk_cosmos_eth_bridge.Rpc.Types.{Attribute, Event, TxResponse}
use zk_cosmos_eth_bridge.Rpc.EvmHash.{
  decode_string_if_small, to_lower, is_evm_type, is_hash_key, hash_of, attribute_hash,
  scan_attributes, scan_events, all_events, get_evm_hash, or_empty,
}

-- All hashes that the events hold, in order.
attribute_hashes : List Attribute → List Bytes
attribute_hashes [] = []
attribute_hashes (a ∷ attrs) =
    let rest = attribute_hashes attrs in elim (attribute_hash a) [ some v ↦ v ∷ rest | none ↦ rest ]

pub event_hashes : List Event → List Bytes
unfolding attribute_hashes
event_hashes [] = []
event_hashes (e ∷ es) =
    let rest = event_hashes es in
    if is_evm_type (to_lower (decode_string_if_small e.type))
    then attribute_hashes e.attributes ++ rest
    else rest

abbrev IsHashText : Bytes → Type 0
IsHashText v = (has_prefix v (codes "0x") ≡ true) × (64 ≤ length v)

with_prefix : Bytes → Bytes
with_prefix v = if has_prefix v (codes "0x") then v else codes "0x" ++ v

with_prefix-IsHashText : (v : Bytes) → 64 ≤ length v → IsHashText (with_prefix v)
unfolding with_prefix
with_prefix-IsHashText v h = elim (Bool-cases (has_prefix v (codes "0x"))) [
  | inl e ↦ rw e (e, h)
  | inr e ↦ rw e (refl, omega arith)
]

hash_of-IsHashText : (key val : Bytes) → OnSome IsHashText (hash_of key val)
unfolding hash_of with_prefix
hash_of-IsHashText key val = split (is_hash_key (to_lower key)) (leb 64 (length val)) refl
  where
    split :
        (k l : Bool)
        → leb 64 (length val) ≡ l
        → OnSome IsHashText (if k && l then some (with_prefix val) else none)
    split false l e = tt
    split true false e = tt
    split true true e = with_prefix-IsHashText val (leb→le 64 (length val) e)

attribute_hash-IsHashText : (a : Attribute) → OnSome IsHashText (attribute_hash a)
unfolding attribute_hash
attribute_hash-IsHashText a =
    hash_of-IsHashText (decode_string_if_small a.key) (decode_string_if_small a.value)

scan_attributes-IsHashText : (attrs : List Attribute) → OnSome IsHashText (scan_attributes attrs)
unfolding scan_attributes
scan_attributes-IsHashText [] = tt
scan_attributes-IsHashText (a ∷ attrs) =
    pass (attribute_hash a) (scan_attributes attrs) (attribute_hash-IsHashText a)
      (scan_attributes-IsHashText attrs)
  where
    pass :
        (o p : Option Bytes)
        → OnSome IsHashText o
        → OnSome IsHashText p
        → OnSome IsHashText (elim o [ some v ↦ some v | none ↦ p ])
    pass none p h k = k
    pass (some v) p h k = h

scan_events-IsHashText : (es : List Event) → OnSome IsHashText (scan_events es)
unfolding scan_events
scan_events-IsHashText [] = tt
scan_events-IsHashText (e ∷ es) =
    pass (is_evm_type (to_lower (decode_string_if_small e.type))) (scan_attributes e.attributes)
      (scan_events es) (scan_attributes-IsHashText e.attributes) (scan_events-IsHashText es)
  where
    pass :
        (b : Bool) (o p : Option Bytes)
        → OnSome IsHashText o
        → OnSome IsHashText p
        → OnSome IsHashText (elim b [ true ↦ elim o [ some v ↦ some v | none ↦ p ] | false ↦ p ])
    pass true none p h k = k
    pass true (some v) p h k = h
    pass false o p h k = k

-- The result of `GetEvmHash` is empty, or begins with `0x` and has 64 characters or more.
pub get_evm_hash_shape :
    (r : TxResponse)
    → (get_evm_hash r ≡ [])
      ⊎ ((has_prefix (get_evm_hash r) (codes "0x") ≡ true) × (64 ≤ length (get_evm_hash r)))
unfolding get_evm_hash
get_evm_hash_shape r = split (scan_events (all_events r)) (scan_events-IsHashText (all_events r))
  where
    split :
        (o : Option Bytes)
        → OnSome IsHashText o
        → (or_empty o ≡ [])
          ⊎ ((has_prefix (or_empty o) (codes "0x") ≡ true) × (64 ≤ length (or_empty o)))
    split none h = inl refl
    split (some v) h = inr h
