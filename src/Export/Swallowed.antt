-- ===== src/Export/Swallowed.antt =====
-- The errors that evmd/export.go drops.
use zk_cosmos_eth_bridge.Common.{
  ◌≡◌, ap, ◌∙◌, true, false, none, some, List, [], ◌∷◌, ◌++◌, if◌then◌else◌, Bytes, ok,
}
use zk_cosmos_eth_bridge.Export.Reset.{reset_table}
use zk_cosmos_eth_bridge.Export.{
  Keepers, Validator, Unbonding, Delegation, redelegation_not_set, unbonding_not_set,
  redelegations_unreadable, unbondings_unreadable, zero_heights, withdraw_commissions,
  withdraw_rewards, reinitialize_delegations, reinitialize_validator, reinitialize_validators,
  reset_validators, prep_distribution, prep_staking,
}
use zk_cosmos_eth_bridge.Export.Zeroed.{
  reset_all_keeps, reset_validators_keeps, redelegations_loop, unbondings_loop,
}

module _ {St Coins : Type 0} (k : Keepers St Coins) where
  -- An error in the reinitialization of a validator at the state `s`, and what is left then.
  pub data Fails (v : Bytes) (s : St) : St → Type 0 where
    no_rewards : k.outstanding_rewards v s ≡ none → Fails v s s
    no_pool :
        {scraps : Coins}
        → k.outstanding_rewards v s ≡ some scraps
        → k.fee_pool s ≡ none
        → Fails v s s
    pool_not_set :
        {scraps pool : Coins}
        → k.outstanding_rewards v s ≡ some scraps
        → k.fee_pool s ≡ some pool
        → k.set_fee_pool (k.add_coins pool scraps) s ≡ none
        → Fails v s s
    hook_failed :
        {scraps pool : Coins} {s' : St}
        → k.outstanding_rewards v s ≡ some scraps
        → k.fee_pool s ≡ some pool
        → k.set_fee_pool (k.add_coins pool scraps) s ≡ some s'
        → k.after_validator_created 0 v s' ≡ none
        → Fails v s s'

  -- The validators that are reinitialized without an error, from one state to another.
  pub data Reinitialized : List Bytes → St → St → Type 0 where
    none_left : {s : St} → Reinitialized [] s s
    and_next :
        {v : Bytes} {vs : List Bytes} {scraps pool : Coins} {s s1 s2 s3 : St}
        → k.outstanding_rewards v s ≡ some scraps
        → k.fee_pool s ≡ some pool
        → k.set_fee_pool (k.add_coins pool scraps) s ≡ some s1
        → k.after_validator_created 0 v s1 ≡ some s2
        → Reinitialized vs s2 s3
        → Reinitialized (v ∷ vs) s s3

  Fails-stops : (v : Bytes) (s s' : St) → Fails v s s' → reinitialize_validator k v s ≡ (s', true)
  unfolding reinitialize_validator
  Fails-stops v s _ (no_rewards e) = rw (reinitialize_validator, e)
  Fails-stops v s _ (no_pool e1 e2) = rw (reinitialize_validator, e1, e2)
  Fails-stops v s _ (pool_not_set e1 e2 e3) = rw (reinitialize_validator, e1, e2, e3)
  Fails-stops v s _ (hook_failed e1 e2 e3 e4) = rw (reinitialize_validator, e1, e2, e3, e4)

  reinitialize_validator_goes_on :
      (v : Bytes) {scraps pool : Coins} (s s1 s2 : St)
      → k.outstanding_rewards v s ≡ some scraps
      → k.fee_pool s ≡ some pool
      → k.set_fee_pool (k.add_coins pool scraps) s ≡ some s1
      → k.after_validator_created 0 v s1 ≡ some s2
      → reinitialize_validator k v s ≡ (s2, false)
  unfolding reinitialize_validator
  reinitialize_validator_goes_on v s s1 s2 e1 e2 e3 e4 = rw (reinitialize_validator, e1, e2, e3, e4)

  reinitialize_validators_stopped :
      (v : Bytes) (before after : List Bytes) (s s1 s2 : St)
      → Reinitialized before s s1
      → Fails v s1 s2
      → reinitialize_validators k (before ++ (v ∷ after)) s ≡ s2
  unfolding reinitialize_validators
  reinitialize_validators_stopped v [] after s _ s2 none_left fails =
      let stops = Fails-stops v s s2 fails in
      ap (λ r. if r.1 then r.0 else reinitialize_validators k after r.0) stops
  reinitialize_validators_stopped v (w ∷ before) after s s1 s2
        (and_next {s1 = t1} {s2 = t2} e1 e2 e3 e4 rest) fails =
      ap (λ r. if r.1 then r.0 else reinitialize_validators k (before ++ (v ∷ after)) r.0)
        (reinitialize_validator_goes_on w s t1 t2 e1 e2 e3 e4)
      ∙ reinitialize_validators_stopped v before after t2 s1 s2 rest fails

  -- Where the reading and the delegations succeed and the reinitialization of a validator `v` then
  -- fails, behind validators that are reinitialized without an error, the preparation of the fee
  -- distribution ends in success, in the state that the failure leaves: the validators after `v` are
  -- not reinitialized.
  pub prep_distribution_stopped :
      (s s2 s3 s4 s5 : St) (vals before after : List Bytes) (v : Bytes) (dels : List Delegation)
      → k.validators s ≡ some vals
      → k.all_delegations (withdraw_commissions k vals s) ≡ some dels
      → withdraw_rewards k dels (withdraw_commissions k vals s) ≡ ok s2
      → reinitialize_delegations k dels s2 ≡ ok s3
      → k.validators
          (k.delete_all_validator_historical_rewards (k.delete_all_validator_slash_events s3))
        ≡ some (before ++ (v ∷ after))
      → Reinitialized before
          (k.delete_all_validator_historical_rewards (k.delete_all_validator_slash_events s3))
          s4
      → Fails v s4 s5
      → prep_distribution k s ≡ ok s5
  unfolding prep_distribution
  prep_distribution_stopped s s2 s3 s4 s5 vals before after v dels e1 e2 e3 e4 e5 walked fails =
      rw (e1, e2, e3, e4, e5, reinitialize_validators_stopped v before after _ s4 s5 walked fails)

  -- Where the resets of the redelegations, the unbonding delegations and the validators succeed and
  -- the iterator over the validators then does not close, the preparation of the staking state ends
  -- in success there, and leaves as it was whatever the setters of the staking state keep, such as
  -- the slashing state.
  pub prep_staking_unclosed :
      {X : Type 0} (slashing : St → X)
      → ((key : Bytes) (u : Unbonding) (s s' : St)
          → k.redelegations.set key u s ≡ some s'
          → slashing s' ≡ slashing s)
      → ((key : Bytes) (u : Unbonding) (s s' : St)
          → k.unbonding_delegations.set key u s ≡ some s'
          → slashing s' ≡ slashing s)
      → ((key : Bytes) (v : Validator) (s s' : St)
          → k.set_validator key v s ≡ some s'
          → slashing s' ≡ slashing s)
      → (allowed : List Bytes) (s s1 s2 s3 : St)
      → reset_table k.redelegations zero_heights redelegation_not_set redelegations_unreadable s
        ≡ ok s1
      → reset_table k.unbonding_delegations zero_heights unbonding_not_set unbondings_unreadable s1
        ≡ ok s2
      → reset_validators k allowed (k.validator_keys s2) s2 ≡ ok s3
      → k.iterator_closes s3 ≡ false
      → (prep_staking k allowed s ≡ ok s3) × (slashing s3 ≡ slashing s)
  unfolding prep_staking
  prep_staking_unclosed slashing keep_red keep_unb keep_val allowed s s1 s2 s3 e1 e2 e3 unclosed =
      let kept1 =
        reset_all_keeps k.redelegations zero_heights redelegation_not_set slashing keep_red _ s s1
          (redelegations_loop k s s1 e1) in
      let kept2 =
        reset_all_keeps k.unbonding_delegations zero_heights unbonding_not_set slashing keep_unb _
          s1 s2 (unbondings_loop k s1 s2 e2) in
      let kept3 = reset_validators_keeps k slashing keep_val allowed _ s2 s3 e3 in
      (rw (e1, e2, e3, unclosed), kept3 ∙ kept2 ∙ kept1)
