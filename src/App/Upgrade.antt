-- ===== src/App/Upgrade.antt =====
-- `RegisterUpgradeHandlers` of evmd/upgrades.go, with the handler that it registers, and `InitChainer` of
-- evmd/app.go.
use zk_cosmos_eth_bridge.Common.{
  ℕ, ◌≡◌, ◌↔◌, refl, ap, ◌∙◌, Bool, true, false, Option, none, some, List, [], ◌∷◌, if◌then◌else◌,
  Bytes, codes, text_eq, Outcome, ok, err, panic,
}
use zk_cosmos_eth_bridge.Common.Int.{ℤ}

pub record DenomUnit : Type 0 where
  pub denom : Bytes
  pub exponent : ℕ

pub record Metadata : Type 0 where
  pub description : Bytes
  pub denom_units : List DenomUnit
  pub base : Bytes
  pub display : Bytes
  pub name : Bytes
  pub symbol : Bytes
  pub uri : Bytes
  pub uri_hash : Bytes

-- The parameters of the EVM module: the option that is written, and the others.
pub record EvmParams (X : Type 0) : Type 0 where
  pub extended_denom : Option Bytes
  pub others : X

-- The keepers and the module manager on a state; false and none are errors.
pub record UpgradeKeepers (St X Versions : Type 0) : Type 0 where
  pub set_denom_meta_data : Metadata → St → St
  pub get_params : St → EvmParams X
  pub set_params : EvmParams X → St → St × Bool
  pub init_evm_coin_info : St → St × Bool
  pub run_migrations : Versions → St → St × Option Versions

abbrev pub upgrade_name : Bytes
upgrade_name = codes "v0.4.0-to-v0.5.0"

abbrev pub test_token : Metadata
test_token = record {
  description = codes "Example description";
  denom_units =
      record { denom = codes "atest"; exponent = 0 }
      ∷ record { denom = codes "test"; exponent = 18 }
      ∷ [];
  base = codes "atest";
  display = codes "test";
  name = codes "Test Token";
  symbol = codes "TEST";
  uri = codes "example_uri";
  uri_hash = codes "example_uri_hash";
}

abbrev pub extended : {X : Type 0} → EvmParams X → EvmParams X
extended params = record params { extended_denom = some (codes "atest") }

module _ {St X Versions : Type 0} (k : UpgradeKeepers St X Versions) where
  abbrev pub migrated : Versions → St × Bool → St × Option Versions
  migrated from_vm (s, true) = k.run_migrations from_vm s
  migrated from_vm (s, false) = (s, none)

  abbrev pub with_coin_info : Versions → St × Bool → St × Option Versions
  with_coin_info from_vm (s, true) = migrated from_vm (k.init_evm_coin_info s)
  with_coin_info from_vm (s, false) = (s, none)

  -- The handler of the upgrade.
  unfoldable pub upgrade_handler : Versions → St → St × Option Versions
  upgrade_handler from_vm s =
      let described = k.set_denom_meta_data test_token s in
      with_coin_info from_vm (k.set_params (extended (k.get_params described)) described)

  -- The steps of an upgrade that succeeds.
  abbrev pub IsUpgraded : Versions → St → St → Versions → Type 0
  IsUpgraded from_vm s s' vm =
      let described = k.set_denom_meta_data test_token s in
      (s1 : St) × (s2 : St) × (k.set_params (extended (k.get_params described)) described
        ≡ (s1, true))
      × (k.init_evm_coin_info s1 ≡ (s2, true))
      × (k.run_migrations from_vm s2 ≡ (s', some vm))

  migrated-eq-some :
      (from_vm vm : Versions) (p : St × Bool) (s' : St)
      → migrated from_vm p ≡ (s', some vm)
      → (s2 : St) × (p ≡ (s2, true)) × (k.run_migrations from_vm s2 ≡ (s', some vm))
  migrated-eq-some from_vm vm (s, true) s' h = (s, refl, h)
  migrated-eq-some from_vm vm (s, false) s' h = cc

  with_coin_info-eq-some :
      (from_vm vm : Versions) (p : St × Bool) (s' : St)
      → with_coin_info from_vm p ≡ (s', some vm)
      → (s1 : St) × (s2 : St) × (p ≡ (s1, true))
        × (k.init_evm_coin_info s1 ≡ (s2, true))
        × (k.run_migrations from_vm s2 ≡ (s', some vm))
  with_coin_info-eq-some from_vm vm (s, true) s' h =
      let (s2, e, run) = migrated-eq-some from_vm vm (k.init_evm_coin_info s) s' h in
      (s, s2, refl, e, run)
  with_coin_info-eq-some from_vm vm (s, false) s' h = cc

  -- The handler gives the versions of the migrations exactly where the parameters, with the extended
  -- denomination and else as they were behind the metadata, are set, the coin is initialized, and
  -- the migrations run, one after the other.
  pub upgrade_handler_iff :
      (from_vm vm : Versions) (s s' : St)
      → (upgrade_handler from_vm s ≡ (s', some vm)) ↔ IsUpgraded from_vm s s' vm
  unfolding upgrade_handler
  upgrade_handler_iff from_vm vm s s' =
      let described = k.set_denom_meta_data test_token s in
      (
        λ h.
            with_coin_info-eq-some from_vm vm
              (k.set_params (extended (k.get_params described)) described) s' h,
        λ h.
            let (s1, s2, set, coin, run) = h in
            ap (with_coin_info from_vm) set ∙ ap (migrated from_vm) coin ∙ run,
      )

pub data UpgradeError : Type 0 where

-- What is registered behind the handler: the height at which the store is upgraded, if any. The plan
-- on disk is a name and a height.
unfoldable pub register_upgrade_handlers :
    Option (Bytes × ℤ) → (ℤ → Bool) → Outcome UpgradeError (Option ℤ)
register_upgrade_handlers none is_skip_height = panic
register_upgrade_handlers (some (name, height)) is_skip_height =
    if text_eq name upgrade_name
    then (if is_skip_height height then ok none else ok (some height))
    else ok none

-- What `InitChainer` calls; the module manager's versions are set first.
pub record InitCalls (St Genesis Response : Type 0) : Type 0 where
  pub unmarshal : Bytes → Option Genesis
  pub set_module_version_map : St → St × Bool
  pub init_genesis : Genesis → St → St × Option Response

pub data InitError : Type 0 where
  genesis_failed : InitError

module _ {St Genesis Response : Type 0} (calls : InitCalls St Genesis Response) where
  abbrev pub answered : St × Option Response → St × Outcome InitError Response
  answered (s, none) = (s, err genesis_failed)
  answered (s, some r) = (s, ok r)

  abbrev pub versioned : Genesis → St × Bool → St × Outcome InitError Response
  versioned g (s, true) = answered (calls.init_genesis g s)
  versioned g (s, false) = (s, panic)

  -- A genesis that is no JSON and versions that are not set make it panic.
  abbrev pub unmarshalled : Option Genesis → St → St × Outcome InitError Response
  unmarshalled none s = (s, panic)
  unmarshalled (some g) s = versioned g (calls.set_module_version_map s)

  unfoldable pub init_chainer : Bytes → St → St × Outcome InitError Response
  init_chainer app_state_bytes s = unmarshalled (calls.unmarshal app_state_bytes) s
