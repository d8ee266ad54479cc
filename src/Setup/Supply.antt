-- ===== src/Setup/Supply.antt =====
-- Whether the supply of the test's genesis of evmd/testutil/eth_setup.go is that of its balances, which
-- the bank module asks for.
use native.Mathlib.Nat.{suc-mul}
use zk_cosmos_eth_bridge.Common.{
  ℕ, zero, suc, ◌+◌, ◌*◌, ◌<◌, ◌≡◌, ◌↔◌, refl, ap, sym, ◌∙◌, false, some, List, [], ◌∷◌, ◌++◌,
  if◌then◌else◌, arith, Bytes, text_eq, text_eq_refl, length, Outcome, ok,
}
use zk_cosmos_eth_bridge.Prover.Witness.Laws.{bind-eq-ok}
use zk_cosmos_eth_bridge.Setup.{
  Coin, Balance, CmtValidator, Delegation, Staking, TestGenesis, Sdk, must, first_account, bond,
  bonded, add_balances, add_bonds, pool_balance, genesis_state_with_val_set, new_test_genesis_state,
}

-- The amount of a denomination.
unfoldable pub amount_of : Bytes → List Coin → ℕ
amount_of denom [] = 0
amount_of denom (c ∷ coins) =
    (if text_eq c.denom denom then c.amount else 0) + amount_of denom coins

-- What all balances hold of a denomination.
unfoldable pub held : Bytes → List Balance → ℕ
held denom [] = 0
held denom (b ∷ balances) = amount_of denom b.coins + held denom balances

-- Adding coins adds their amounts.
pub record IsSdk (sdk : Sdk) : Type 0 where
  pub amount_of-add :
      (denom : Bytes) (a b : List Coin)
      → amount_of denom (sdk.add a b) ≡ amount_of denom a + amount_of denom b

held-append :
    (denom : Bytes) (a b : List Balance) → held denom (a ++ b) ≡ held denom a + held denom b
unfolding held
held-append denom [] b = omega arith
held-append denom (x ∷ a) b = omega (arith, held-append denom a b)

none_held : (d : Bytes) (n : ℕ) → amount_of d [] + n ≡ n
unfolding amount_of
none_held d n = omega arith

ok-injective : {E A : Type 0} {a b : A} → ◌≡◌ {A = Outcome E A} (ok a) (ok b) → a ≡ b
ok-injective h = cc

times_one : (n r : ℕ) → 0 < r → (n * r ≡ r) ↔ (n ≡ 1)
times_one zero r h = (λ e. absurd (omega (arith, h, e)), λ e. absurd (omega (arith, e)))
times_one (suc zero) r h = (λ e. refl, λ e. omega arith)
times_one (suc (suc n)) r h = (
  λ e. absurd (grind (arith, h, e, suc-mul n r, suc-mul (suc n) r)),
  λ e. absurd (omega (arith, e)),
)

module _ (sdk : Sdk) (law : IsSdk sdk) where
  amount_of-add_balances :
      (denom : Bytes) (balances : List Balance) (supply : List Coin)
      → amount_of denom (add_balances sdk balances supply)
        ≡ amount_of denom supply + held denom balances
  unfolding add_balances held
  amount_of-add_balances denom [] supply = omega arith
  amount_of-add_balances denom (b ∷ balances) supply = omega (
    arith,
    amount_of-add_balances denom balances (sdk.add supply b.coins),
    law.amount_of-add denom supply b.coins,
  )

  amount_of-add_bonds :
      (denom : Bytes) (delegations : List Delegation) (supply : List Coin)
      → amount_of denom (add_bonds sdk delegations supply)
        ≡ amount_of denom supply + length delegations * amount_of denom (bond sdk ∷ [])
  unfolding add_bonds
  amount_of-add_bonds denom [] supply = omega arith
  amount_of-add_bonds denom (d ∷ delegations) supply =
      let rest = amount_of-add_bonds denom delegations (sdk.add supply (bond sdk ∷ [])) in
      let one = law.amount_of-add denom supply (bond sdk ∷ []) in grind (arith, rest, one)

  bonded-length :
      (accounts : List Bytes) (vs : List CmtValidator) (st : Staking)
      → bonded sdk accounts vs ≡ ok st
      → length st.delegations ≡ length vs
  unfolding bonded
  bonded-length accounts [] st h =
      let same : record { validators = []; delegations = [] } ≡ st = cc in
      ap (λ (r : Staking). length r.delegations) (sym same)
  bonded-length accounts (v ∷ vs) st h =
      let (key, _, h1) = bind-eq-ok (must v.sdk_key) _ h in
      let (delegator, _, h2) = bind-eq-ok (first_account accounts) _ h1 in
      let (rest, inner, h3) = bind-eq-ok (bonded sdk accounts vs) _ h2 in
      let same = ok-injective h3 in
      ap (λ (r : Staking). length r.delegations) (sym same)
      ∙ ap suc (bonded-length accounts vs rest inner)

  held-pool : (d : Bytes) → held d (pool_balance sdk ∷ []) ≡ amount_of d (bond sdk ∷ [])
  unfolding held
  held-pool d = omega arith

  bond-own : amount_of sdk.bond_denom (bond sdk ∷ []) ≡ sdk.power_reduction
  unfolding amount_of
  bond-own = rw (text_eq_refl sdk.bond_denom) (omega arith)

  bond-other :
      (denom : Bytes) → text_eq sdk.bond_denom denom ≡ false → amount_of denom (bond sdk ∷ []) ≡ 0
  unfolding amount_of
  bond-other denom other = rw other (omega arith)

  -- What the supply and the balances have of a denomination.
  genesis_amounts :
      (vs : List CmtValidator) (accounts : List Bytes) (balances : List Balance) (g : TestGenesis)
      (denom : Bytes)
      → genesis_state_with_val_set sdk vs accounts balances ≡ ok g
      → (amount_of denom g.supply
          ≡ held denom balances + length vs * amount_of denom (bond sdk ∷ []))
        × (held denom g.balances ≡ held denom balances + amount_of denom (bond sdk ∷ []))
  unfolding genesis_state_with_val_set
  genesis_amounts vs accounts balances g denom h =
      let (st, staked, h1) = bind-eq-ok (bonded sdk accounts vs) _ h in
      let same = ok-injective h1 in
      let bonds = amount_of-add_bonds denom st.delegations (add_balances sdk balances []) in
      let sums = amount_of-add_balances denom balances [] in
      (
        ap (λ (r : TestGenesis). amount_of denom r.supply) (sym same)
            ∙ bonds
            ∙ ap (λ n. n + length st.delegations * amount_of denom (bond sdk ∷ []))
                (sums ∙ none_held denom (held denom balances))
            ∙ ap (λ n. held denom balances + n * amount_of denom (bond sdk ∷ []))
                (bonded-length accounts vs st staked),
        ap (λ (r : TestGenesis). held denom r.balances) (sym same)
            ∙ held-append denom balances (pool_balance sdk ∷ [])
            ∙ ap (λ n. held denom balances + n) (held-pool denom),
      )

  -- Where adding coins adds their amounts, and a power has tokens: the supply of the bond denomination
  -- in a genesis with a set of validators is what the balances hold of it exactly where there is one
  -- validator, since each validator adds a bond to the supply and the pool has a single one. Of any
  -- other denomination the supply always is what the balances hold.
  pub genesis_state_with_val_set_iff :
      (vs : List CmtValidator) (accounts : List Bytes) (balances : List Balance) (g : TestGenesis)
      → 0 < sdk.power_reduction
      → genesis_state_with_val_set sdk vs accounts balances ≡ ok g
      → ((amount_of sdk.bond_denom g.supply ≡ held sdk.bond_denom g.balances) ↔ (length vs ≡ 1))
        × ((denom : Bytes)
            → text_eq sdk.bond_denom denom ≡ false
            → amount_of denom g.supply ≡ held denom g.balances)
  genesis_state_with_val_set_iff vs accounts balances g positive h = (
    let (supply, held_all) = genesis_amounts vs accounts balances g sdk.bond_denom h in
        let one = times_one (length vs) sdk.power_reduction positive in
        let own = bond-own in
        (
          λ same. one.0 (omega (arith, supply, held_all, same, own, ap (λ n. length vs * n) own)),
          λ single. omega (arith, supply, held_all, own, ap (λ n. length vs * n) own, one.1 single),
        ),
    λ denom other.
        let (supply, held_all) = genesis_amounts vs accounts balances g denom h in
        let nothing = bond-other denom other in
        omega (arith, supply, held_all, nothing, ap (λ n. length vs * n) nothing),
  )

  -- The genesis of a test, with its one validator, is made where its key is drawn and converted, and
  -- its supply is what its balances hold of every denomination.
  pub new_test_genesis_state_lem :
      (v : CmtValidator) (key account : Bytes)
      → v.sdk_key ≡ some key
      → (g : TestGenesis) × (new_test_genesis_state sdk (some v) account ≡ ok g)
        × ((denom : Bytes) → amount_of denom g.supply ≡ held denom g.balances)
  unfolding new_test_genesis_state genesis_state_with_val_set bonded
  new_test_genesis_state_lem v key account h =
      let balances =
        record {
          address = account;
          coins = record { denom = sdk.bond_denom; amount = 100000000000000 } ∷ [];
        }
        ∷ [] in
      let g : TestGenesis = record {
        accounts = account ∷ [];
        staking = record {
          validators =
              record {
                operator_address = sdk.operator_text v.address;
                consensus_pubkey = key;
                tokens = sdk.power_reduction;
              }
              ∷ [];
          delegations = record { delegator = account; validator = sdk.address_text v.address } ∷ [];
        };
        balances = balances ++ (pool_balance sdk ∷ []);
        supply =
            add_bonds sdk
              (record { delegator = account; validator = sdk.address_text v.address } ∷ [])
              (add_balances sdk balances []);
      } in
      let made : new_test_genesis_state sdk (some v) account ≡ ok g = rw h refl in
      (
        g,
        made,
        λ denom.
            let (supply, held_all) =
              genesis_amounts (v ∷ []) (account ∷ []) balances g denom made in
            omega (arith, supply, held_all),
      )
