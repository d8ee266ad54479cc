-- ===== src/Tests/Testnet.antt =====
-- Small testnets.
use zk_cosmos_eth_bridge.Common.{ℕ, ◌<◌, ◌%◌, ◌≡◌, ◌↔◌, refl, arith, List, [], ◌∷◌, some, ok, codes}
use zk_cosmos_eth_bridge.Common.Int.{ℤ, pos}
use zk_cosmos_eth_bridge.Codec.Decimal.{decimal, digits_onto}
use zk_cosmos_eth_bridge.Testnet.Address.{Ipv4, ip_text, advance, calculate_ip, advance_same_iff}
use zk_cosmos_eth_bridge.Testnet.Ports.{
  grpc, json_rpc, single_host_port, single_host_port_injective,
}

abbrev two_powers : List ℤ
two_powers = pos 300 ∷ pos 200 ∷ []

abbrev high : Ipv4
high = record { b0 = 192; b1 = 168; b2 = 0; b3 = 254 }

-- The third address is lower than the first.
calculate_ip-high : calculate_ip (some high) 2 ≡ ok (codes "192.168.0.0")
unfolding calculate_ip advance ip_text decimal digits_onto
calculate_ip-high = refl

byte : high.b3 < 256
byte = omega arith

advance_same_iff_example : (advance 1 high ≡ advance 257 high) ↔ (1 % 256 ≡ 257 % 256)
advance_same_iff_example = advance_same_iff 1 257 high byte

-- With 56 validators the bound of the theorem is passed, and two ports meet.
port_collision : single_host_port grpc 5 ≡ single_host_port json_rpc 55
unfolding single_host_port
port_collision = refl

one_small : 54 < 55
one_small = omega arith

-- The last validator below the bound.
single_host_port_injective_example : (json_rpc ≡ json_rpc) × (◌≡◌ {A = ℕ} 54 54)
single_host_port_injective_example =
    single_host_port_injective json_rpc json_rpc 54 54 (omega arith) (omega arith) refl
