-- ===== src/Testnet/Address.antt =====
-- `calculateIP` and `getIP` of evmd/cmd/evmd/cmd/testnet.go. A parsed address is its four bytes, as
-- `net.ParseIP(ip).To4()` gives them.
use zk_cosmos_eth_bridge.Common.{
  ℕ, zero, suc, ◌+◌, ◌%◌, ◌<◌, ◌≡◌, ◌↔◌, ap, sym, ◌∙◌, Option, none, some, [], ◌++◌, arith,
  if◌then◌else◌, Bytes, codes, text_eq, Outcome, ok, err,
}
use zk_cosmos_eth_bridge.Codec.Decimal.{decimal}

pub record Ipv4 : Type 0 where
  pub b0 : ℕ
  pub b1 : ℕ
  pub b2 : ℕ
  pub b3 : ℕ

pub data AddressError : Type 0 where
  non_ipv4_address no_external_ip : AddressError

-- `ipv4[3]++` on a byte, `n` times.
unfoldable pub advance : ℕ → Ipv4 → Ipv4
advance zero ip = ip
advance (suc n) ip = advance n (record ip { b3 = (ip.b3 + 1) % 256 })

unfoldable pub ip_text : Ipv4 → Bytes
ip_text ip =
    decimal ip.b0
    ++ (codes "."
        ++ (decimal ip.b1 ++ (codes "." ++ (decimal ip.b2 ++ (codes "." ++ decimal ip.b3)))))

unfoldable pub calculate_ip : Option Ipv4 → ℕ → Outcome AddressError Bytes
calculate_ip none i = err non_ipv4_address
calculate_ip (some ip) i = ok (ip_text (advance i ip))

abbrev or_external : Option Bytes → Outcome AddressError Bytes
or_external none = err no_external_ip
or_external (some ip) = ok ip

-- `external_ip` is what `server.ExternalIP` gives, and `to4` parses.
unfoldable pub get_ip :
    Option Bytes → (Bytes → Option Ipv4) → ℕ → Bytes → Outcome AddressError Bytes
get_ip external_ip to4 i starting_ip_addr =
    if text_eq starting_ip_addr []
    then or_external external_ip
    else calculate_ip (to4 starting_ip_addr) i

ipv4_eq :
    (a b c d d' : ℕ)
    → d ≡ d'
    → (let x : Ipv4 = record { b0 = a; b1 = b; b2 = c; b3 = d } in x)
      ≡ record { b0 = a; b1 = b; b2 = c; b3 = d' }
ipv4_eq a b c d d' e = cc

-- Only the last byte moves, and it wraps around without a carry.
pub advance_lem :
    (n : ℕ) (ip : Ipv4) → ip.b3 < 256 → advance n ip ≡ record ip { b3 = (ip.b3 + n) % 256 }
unfolding advance
advance_lem zero ip h = ipv4_eq ip.b0 ip.b1 ip.b2 ip.b3 ((ip.b3 + 0) % 256) (omega arith)
advance_lem (suc n) ip h =
    advance_lem n (record ip { b3 = (ip.b3 + 1) % 256 }) (omega arith)
    ∙ ipv4_eq ip.b0 ip.b1 ip.b2 (((ip.b3 + 1) % 256 + n) % 256) ((ip.b3 + suc n) % 256)
        (omega arith)

-- The addresses of two validators are the same exactly where their indices are the same modulo
-- 256.
pub advance_same_iff :
    (i j : ℕ) (ip : Ipv4) → ip.b3 < 256 → (advance i ip ≡ advance j ip) ↔ (i % 256 ≡ j % 256)
advance_same_iff i j ip h =
    let last_i = advance_lem i ip h in
    let last_j = advance_lem j ip h in
    (
      λ e.
          let last : (ip.b3 + i) % 256 ≡ (ip.b3 + j) % 256 =
            ap (λ a. a.b3) (sym last_i ∙ e ∙ last_j) in
          omega (arith, last, h),
      λ e.
          last_i
          ∙ ipv4_eq ip.b0 ip.b1 ip.b2 ((ip.b3 + i) % 256) ((ip.b3 + j) % 256) (omega (arith, e))
          ∙ sym last_j,
    )
