-- ===== src/Export.antt =====
-- evmd/export.go. The keepers of the Cosmos SDK are an interface over their stores, a type `St`.
pub mod Reset
pub mod Zeroed
pub mod Swallowed
pub mod Exported
use zk_cosmos_eth_bridge.Common.{
  ℕ, zero, suc, ◌+◌, ◌≡◌, Bool, true, false, not, ◌&&◌, Option, none, some, List, [], ◌∷◌, map,
  if◌then◌else◌, Bytes, text_eq, length, leb, Outcome, ok, err, panic, ◌>>=◌, or_err,
}
use zk_cosmos_eth_bridge.Export.Reset.{Table, reset_table}

pub record Validator : Type 0 where
  pub unbonding_height : ℕ
  pub jailed : Bool

-- A redelegation or an unbonding delegation: what is read of it are the creation heights of its
-- entries.
pub record Unbonding : Type 0 where
  pub creation_heights : List ℕ

pub record SigningInfo : Type 0 where
  pub start_height : ℕ
  pub tombstoned : Bool

pub record Delegation : Type 0 where
  pub delegator_address : Bytes
  pub validator_address : Bytes

-- The keepers. A call with a result that the code drops gives the stores alone; a call that may
-- fail gives none then. Iterators give what they visit.
pub record Keepers (St Coins : Type 0) : Type 0 where
  pub val_address_from_bech32 : Bytes → Option Bytes
  pub acc_address_from_bech32 : Bytes → Option Bytes
  pub address_text : Bytes → Bytes
  pub validators : St → Option (List Bytes)
  pub withdraw_validator_commission : Bytes → St → St
  pub all_delegations : St → Option (List Delegation)
  pub withdraw_delegation_rewards : Bytes → Bytes → St → St
  pub before_delegation_created : Bytes → Bytes → St → Option St
  pub after_delegation_modified : Bytes → Bytes → St → Option St
  pub delete_all_validator_slash_events : St → St
  pub delete_all_validator_historical_rewards : St → St
  pub outstanding_rewards : Bytes → St → Option Coins
  pub fee_pool : St → Option Coins
  pub add_coins : Coins → Coins → Coins
  pub set_fee_pool : Coins → St → Option St
  -- at the block height that is given
  pub after_validator_created : ℕ → Bytes → St → Option St
  pub redelegations : Table St Unbonding
  pub unbonding_delegations : Table St Unbonding
  pub validator_keys : St → List Bytes
  pub get_validator : Bytes → St → Option Validator
  pub set_validator : Bytes → Validator → St → Option St
  pub iterator_closes : St → Bool
  pub apply_validator_set_updates : St → Option St
  pub signing_infos : Table St SigningInfo

pub data ExportError : Type 0 where
  validators_unreadable delegations_unreadable redelegation_not_set unbonding_not_set
        validator_not_found validator_not_set signing_info_not_set redelegations_unreadable
        unbondings_unreadable signing_infos_unreadable :
      ExportError

-- `red.Entries[i].CreationHeight = 0` for every `i`.
abbrev pub zero_heights : Unbonding → Unbonding
zero_heights u = record { creation_heights = map (λ h. 0) u.creation_heights }

abbrev pub zero_start : SigningInfo → SigningInfo
zero_start info = record info { start_height = 0 }

abbrev pub member : Bytes → List Bytes → Bool
member a [] = false
member a (b ∷ bs) = if text_eq a b then true else member a bs

-- A panic or `log.Fatal`.
abbrev pub or_die : {A : Type 0} → Option A → Outcome ExportError A
or_die none = panic
or_die (some a) = ok a

module _ {St Coins : Type 0} (k : Keepers St Coins) where
  -- The check of the allow list: an address that cannot be read is fatal.
  unfoldable pub check_allowed : List Bytes → Outcome ExportError (Unit {0})
  check_allowed [] = ok tt
  check_allowed (addr ∷ addrs) =
      or_die (k.val_address_from_bech32 addr) >>= λ _. check_allowed addrs

  unfoldable pub withdraw_commissions : List Bytes → St → St
  withdraw_commissions [] s = s
  withdraw_commissions (v ∷ vs) s = withdraw_commissions vs (k.withdraw_validator_commission v s)

  unfoldable pub withdraw_rewards : List Delegation → St → Outcome ExportError St
  withdraw_rewards [] s = ok s
  withdraw_rewards (d ∷ ds) s = do
    val_addr ← or_die (k.val_address_from_bech32 d.validator_address)
    del_addr ← or_die (k.acc_address_from_bech32 d.delegator_address)
    withdraw_rewards ds (k.withdraw_delegation_rewards del_addr val_addr s)

  unfoldable pub reinitialize_delegations : List Delegation → St → Outcome ExportError St
  reinitialize_delegations [] s = ok s
  reinitialize_delegations (d ∷ ds) s = do
    val_addr ← or_die (k.val_address_from_bech32 d.validator_address)
    del_addr ← or_die (k.acc_address_from_bech32 d.delegator_address)
    s1 ← or_die (k.before_delegation_created del_addr val_addr s)
    s2 ← or_die (k.after_delegation_modified del_addr val_addr s1)
    reinitialize_delegations ds s2

  -- The callback for one validator, at height 0: what it has done, and whether it stops.
  unfoldable pub reinitialize_validator : Bytes → St → St × Bool
  reinitialize_validator v s = elim (k.outstanding_rewards v s) [
    | none ↦ (s, true)
    | some scraps ↦ elim (k.fee_pool s) [
      | none ↦ (s, true)
      | some pool ↦ elim (k.set_fee_pool (k.add_coins pool scraps) s) [
        | none ↦ (s, true)
        | some s1 ↦ elim (k.after_validator_created 0 v s1) [
          | none ↦ (s1, true)
          | some s2 ↦ (s2, false)
        ]
      ]
    ]
  ]

  -- The iteration over the validators. A callback that stops leaves no error.
  unfoldable pub reinitialize_validators : List Bytes → St → St
  reinitialize_validators [] s = s
  reinitialize_validators (v ∷ vs) s =
      let step = reinitialize_validator v s in
      let rest = reinitialize_validators vs step.0 in if step.1 then step.0 else rest

  -- The heights are reset, and with an allow list the validators outside of it are jailed.
  unfoldable pub reset_validator : List Bytes → Bytes → Validator → Validator
  reset_validator allowed addr v = record {
    unbonding_height = 0;
    jailed =
        if leb 1 (length allowed) && not (member (k.address_text addr) allowed)
        then true
        else v.jailed;
  }

  unfoldable pub reset_validators : List Bytes → List Bytes → St → Outcome ExportError St
  reset_validators allowed [] s = ok s
  reset_validators allowed (addr ∷ addrs) s = do
    v ← or_err (k.get_validator addr s) validator_not_found
    s1 ← or_err (k.set_validator addr (reset_validator allowed addr v) s) validator_not_set
    reset_validators allowed addrs s1

  -- The fee distribution state.
  unfoldable pub prep_distribution : St → Outcome ExportError St
  prep_distribution s = do
    vals ← or_err (k.validators s) validators_unreadable
    let s1 = withdraw_commissions vals s
    dels ← or_err (k.all_delegations s1) delegations_unreadable
    s2 ← withdraw_rewards dels s1
    s3 ← reinitialize_delegations dels s2
    let s4 = k.delete_all_validator_historical_rewards (k.delete_all_validator_slash_events s3)
    vals4 ← or_err (k.validators s4) validators_unreadable
    ok (reinitialize_validators vals4 s4)

  -- The slashing state.
  unfoldable pub prep_slashing : St → Outcome ExportError St
  prep_slashing s = do
    s1 ← or_die (k.apply_validator_set_updates s)
    reset_table k.signing_infos zero_start signing_info_not_set signing_infos_unreadable s1

  -- The staking state. Where the iterator does not close, the function ends without an error.
  unfoldable pub prep_staking : List Bytes → St → Outcome ExportError St
  prep_staking allowed s = do
    s1 ← reset_table k.redelegations zero_heights redelegation_not_set redelegations_unreadable s
    s2 ← reset_table k.unbonding_delegations zero_heights unbonding_not_set unbondings_unreadable s1
    s3 ← reset_validators allowed (k.validator_keys s2) s2
    if k.iterator_closes s3 then prep_slashing s3 else ok s3

  unfoldable pub prep_for_zero_height_genesis : List Bytes → St → Outcome ExportError St
  prep_for_zero_height_genesis jail_allowed_addrs s = do
    _ ← check_allowed jail_allowed_addrs
    s1 ← prep_distribution s
    prep_staking jail_allowed_addrs s1

  -- `ExportAppStateAndValidators`: the height, and the stores that the genesis state and the
  -- validators are written from.
  unfoldable pub export_state : Bool → List Bytes → ℕ → St → Outcome ExportError (ℕ × St)
  export_state true jail_allowed_addrs last_height s =
      prep_for_zero_height_genesis jail_allowed_addrs s >>= λ s1. ok (0, s1)
  export_state false jail_allowed_addrs last_height s = ok (last_height + 1, s)
