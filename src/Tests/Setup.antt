-- ===== src/Tests/Setup.antt =====
-- The genesis of a test with two validators.
use zk_cosmos_eth_bridge.Common.{
  ◌+◌, ◌≡◌, ◌↔◌, refl, arith, false, some, List, [], ◌∷◌, ◌++◌, Bytes, codes, text_eq, length, ok,
}
use zk_cosmos_eth_bridge.Setup.{
  Coin, CmtValidator, TestGenesis, Sdk, bond, bonded, add_balances, add_bonds, pool_balance,
  genesis_state_with_val_set,
}
use zk_cosmos_eth_bridge.Setup.Supply.{amount_of, held, IsSdk, genesis_state_with_val_set_iff}

abbrev sdk : Sdk
sdk = record {
  add = λ a b. a ++ b;
  operator_text = λ a. a;
  address_text = λ a. a;
  bonded_pool = codes "pool";
  bond_denom = codes "stake";
  power_reduction = 10;
}

amount_of-append :
    (denom : Bytes) (a b : List Coin)
    → amount_of denom (a ++ b) ≡ amount_of denom a + amount_of denom b
unfolding amount_of
amount_of-append denom [] b = omega arith
amount_of-append denom (c ∷ a) b = omega (arith, amount_of-append denom a b)

sdk-IsSdk : IsSdk sdk
sdk-IsSdk = record { amount_of-add = amount_of-append }

abbrev validators : List CmtValidator
validators =
    record { address = codes "v"; sdk_key = some (codes "k") }
    ∷ record { address = codes "w"; sdk_key = some (codes "l") }
    ∷ []

abbrev two_bonds : TestGenesis
two_bonds = record {
  accounts = codes "a" ∷ [];
  staking = record {
    validators =
        record { operator_address = codes "v"; consensus_pubkey = codes "k"; tokens = 10 }
        ∷ record { operator_address = codes "w"; consensus_pubkey = codes "l"; tokens = 10 }
        ∷ [];
    delegations =
        record { delegator = codes "a"; validator = codes "v" }
        ∷ record { delegator = codes "a"; validator = codes "w" }
        ∷ [];
  };
  balances = pool_balance sdk ∷ [];
  supply = bond sdk ∷ bond sdk ∷ [];
}

made : genesis_state_with_val_set sdk validators (codes "a" ∷ []) [] ≡ ok two_bonds
unfolding genesis_state_with_val_set bonded add_balances add_bonds
made = refl

genesis_state_with_val_set_iff_example :
    ((amount_of sdk.bond_denom two_bonds.supply ≡ held sdk.bond_denom two_bonds.balances)
      ↔ (length validators ≡ 1))
    × ((denom : Bytes)
        → text_eq sdk.bond_denom denom ≡ false
        → amount_of denom two_bonds.supply ≡ held denom two_bonds.balances)
genesis_state_with_val_set_iff_example =
    genesis_state_with_val_set_iff sdk sdk-IsSdk validators (codes "a" ∷ []) [] two_bonds
      (omega arith) made
