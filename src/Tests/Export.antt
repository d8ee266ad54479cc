-- ===== src/Tests/Export.antt =====
-- A chain with one redelegation, one unbonding delegation, one validator and one signing info.
use zk_cosmos_eth_bridge.Common.{
  ℕ, ◌+◌, ◌≡◌, refl, ap, sym, ◌∙◌, Bool, true, false, Option, none, some, List, [], ◌∷◌, ◌++◌,
  if◌then◌else◌, arith, Bytes, codes, text_eq, Bool-cases, inl, inr, ok, ◌>>=◌,
}
use zk_cosmos_eth_bridge.Export.Reset.{IsTable, reset_all, reset_table}
use zk_cosmos_eth_bridge.Export.{
  Keepers, Validator, Unbonding, SigningInfo, check_allowed, withdraw_commissions, withdraw_rewards,
  reinitialize_delegations, reinitialize_validator, reinitialize_validators, reset_validator,
  zero_heights, redelegation_not_set, redelegations_unreadable, unbonding_not_set,
  unbondings_unreadable, reset_validators, prep_distribution, prep_slashing, prep_staking,
  prep_for_zero_height_genesis, export_state,
}
use zk_cosmos_eth_bridge.Export.Zeroed.{IsKeepers, IsZeroed}
use zk_cosmos_eth_bridge.Export.Exported.{
  ExportCalls, ExportedApp, exported, prepared, export_app_state_and_validators, IsExported,
  export_app_state_and_validators-IsZeroed,
}
use zk_cosmos_eth_bridge.Export.Swallowed.{
  prep_distribution_stopped, prep_staking_unclosed, none_left, and_next, no_rewards,
}

record Stores : Type 0 where
  red : Unbonding
  unb : Unbonding
  validator : Validator
  info : SigningInfo
  pool : ℕ

abbrev key : Bytes
key = codes "v"

abbrev one_entry : {V : Type 0} → V → List (Bytes × V)
one_entry v = (key, v) ∷ []

abbrev guarded : Bytes → Stores → Option Stores
guarded k s = if text_eq key k then some s else none

-- `closes` is whether the iterator over the validators closes.
abbrev keepers : Bool → Keepers Stores ℕ
keepers closes = record {
  val_address_from_bech32 = λ a. some a;
  acc_address_from_bech32 = λ a. some a;
  address_text = λ a. a;
  validators = λ s. some (key ∷ []);
  withdraw_validator_commission = λ v s. s;
  all_delegations =
      λ s. some (record { delegator_address = codes "d"; validator_address = key } ∷ []);
  withdraw_delegation_rewards = λ d v s. s;
  before_delegation_created = λ d v s. some s;
  after_delegation_modified = λ d v s. some s;
  delete_all_validator_slash_events = λ s. s;
  delete_all_validator_historical_rewards = λ s. s;
  outstanding_rewards = λ v s. if text_eq key v then some 5 else none;
  fee_pool = λ s. some s.pool;
  add_coins = λ a b. a + b;
  set_fee_pool = λ c s. some (record s { pool = c });
  after_validator_created = λ h v s. some s;
  redelegations = record {
    opens = λ s. true;
    entries = λ s. one_entry s.red;
    set = λ k u s. guarded k (record s { red = u });
  };
  unbonding_delegations = record {
    opens = λ s. true;
    entries = λ s. one_entry s.unb;
    set = λ k u s. guarded k (record s { unb = u });
  };
  validator_keys = λ s. key ∷ [];
  get_validator = λ a s. some s.validator;
  set_validator = λ a v s. some (record s { validator = v });
  iterator_closes = λ s. closes;
  apply_validator_set_updates = λ s. some s;
  signing_infos = record {
    opens = λ s. true;
    entries = λ s. one_entry s.info;
    set = λ k i s. guarded k (record s { info = i });
  };
}

set_one : (k : Bytes) (s t s' : Stores) → guarded k t ≡ some s' → (text_eq key k ≡ true) × (t ≡ s')
set_one k s t s' h = elim (Bool-cases (text_eq key k)) [
  | inl e ↦ (e, ground (arith, e, h))
  | inr e ↦ ground (arith, e, h)
]

-- Where the only entry is replaced, it is replaced in its place.
set_place :
    {V : Type 0} (v v' w : V) (k : Bytes) (before rest : List (Bytes × V))
    → one_entry w ≡ before ++ ((k, v') ∷ rest)
    → one_entry v ≡ before ++ ((k, v) ∷ rest)
set_place v v' w k [] rest h = cc
set_place v v' w k (x ∷ []) rest h = cc
set_place v v' w k (x ∷ y ∷ before) rest h = cc

redelegations-IsTable : IsTable (keepers true).redelegations
redelegations-IsTable = record {
  set-entries = λ k u v before rest s s' start h.
      let (_, same) = set_one k s (record s { red = u }) s' h in
      ap (λ q. one_entry q.red) (sym same) ∙ set_place u v s.red k before rest start;
}

unbondings-IsTable : IsTable (keepers true).unbonding_delegations
unbondings-IsTable = record {
  set-entries = λ k u v before rest s s' start h.
      let (_, same) = set_one k s (record s { unb = u }) s' h in
      ap (λ q. one_entry q.unb) (sym same) ∙ set_place u v s.unb k before rest start;
}

infos-IsTable : IsTable (keepers true).signing_infos
infos-IsTable = record {
  set-entries = λ k i v before rest s s' start h.
      let (_, same) = set_one k s (record s { info = i }) s' h in
      ap (λ q. one_entry q.info) (sym same) ∙ set_place i v s.info k before rest start;
}

some_same : {a b : Stores} → ◌≡◌ {A = Option Stores} (some a) (some b) → a ≡ b
some_same e = cc

keepers-IsKeepers : IsKeepers (keepers true)
keepers-IsKeepers = record {
  redelegations-IsTable = redelegations-IsTable;
  unbondings-IsTable = unbondings-IsTable;
  infos-IsTable = infos-IsTable;
  redelegations-Distinct = λ s. (tt, tt);
  unbondings-Distinct = λ s. (tt, tt);
  infos-Distinct = λ s. (tt, tt);
  unbonding_keeps =
      λ k u s s' h. ap (λ q. one_entry q.red) (sym (set_one k s (record s { unb = u }) s' h).1);
  validator_keeps = λ k v s s' h. (
    ap (λ q. one_entry q.red) (sym (some_same h)),
    ap (λ q. one_entry q.unb) (sym (some_same h)),
  );
  apply_keeps = λ s s' h. (
    ap (λ q. one_entry q.red) (sym (some_same h)),
    ap (λ q. one_entry q.unb) (sym (some_same h)),
  );
  info_keeps = λ k i s s' h.
      let same = (set_one k s (record s { info = i }) s' h).1 in
      (ap (λ q. one_entry q.red) (sym same), ap (λ q. one_entry q.unb) (sym same));
}

abbrev chain : Stores
chain = record {
  red = record { creation_heights = 7 ∷ 9 ∷ [] };
  unb = record { creation_heights = 8 ∷ [] };
  validator = record { unbonding_height = 4; jailed = false };
  info = record { start_height = 3; tombstoned = false };
  pool = 1;
}

-- The validator is jailed where the allow list has only another.
abbrev zeroed : Stores
zeroed = record {
  red = record { creation_heights = 0 ∷ 0 ∷ [] };
  unb = record { creation_heights = 0 ∷ [] };
  validator = record { unbonding_height = 0; jailed = true };
  info = record { start_height = 0; tombstoned = false };
  pool = 6;
}

prep-chain : prep_for_zero_height_genesis (keepers true) (codes "w" ∷ []) chain ≡ ok zeroed
unfolding prep_for_zero_height_genesis check_allowed prep_distribution withdraw_commissions
    withdraw_rewards reinitialize_delegations reinitialize_validators reinitialize_validator
    prep_staking reset_all reset_table reset_validators reset_validator prep_slashing
prep-chain = refl

-- The genesis and its text are the stores; a validator set and parameters are numbers.
abbrev export_calls : ExportCalls Stores Stores Stores ℕ ℕ
export_calls = record {
  export_genesis = λ modules s. some s;
  marshal = λ s. some s;
  write_validators = λ s. (s.pool, true);
  consensus_params = λ s. 1;
}

abbrev exported_chain : ExportedApp Stores ℕ ℕ
exported_chain = record { app_state = zeroed; validators = 6; height = 0; consensus_params = 1 }

export-chain :
    export_app_state_and_validators (keepers true) export_calls true (codes "w" ∷ []) [] 70 chain
    ≡ exported exported_chain
unfolding export_app_state_and_validators export_state
export-chain = ap (λ o. prepared (keepers true) export_calls [] (o >>= λ s. ok (0, s))) prep-chain

export_app_state_and_validators-IsZeroed_example :
    (s' : Stores) × (exported_chain.height ≡ 0)
    × IsZeroed (keepers true) s'
    × IsExported (keepers true) export_calls [] s' exported_chain
export_app_state_and_validators-IsZeroed_example =
    export_app_state_and_validators-IsZeroed (keepers true) export_calls keepers-IsKeepers
      (λ s. refl) (codes "w" ∷ []) [] 70 chain exported_chain export-chain

-- The same chain where the allow list names an unknown validator `w` in front of `v`.
abbrev with_unknown : Keepers Stores ℕ
with_unknown = record (keepers true) { validators = λ s. some (key ∷ codes "w" ∷ key ∷ []) }

prep_distribution_stopped_example :
    prep_distribution with_unknown chain ≡ ok (record chain { pool = 6 })
unfolding withdraw_commissions withdraw_rewards reinitialize_delegations
prep_distribution_stopped_example =
    prep_distribution_stopped with_unknown chain chain chain (record chain { pool = 6 })
      (record chain { pool = 6 }) (key ∷ codes "w" ∷ key ∷ []) (key ∷ []) (key ∷ []) (codes "w")
      (record { delegator_address = codes "d"; validator_address = key } ∷ []) refl refl refl refl
      refl
      (and_next {scraps = 5} {pool = 1} {s1 = record chain { pool = 6 }}
        {s2 = record chain { pool = 6 }} refl refl refl refl none_left)
      (no_rewards refl)

abbrev unclosed : Stores
unclosed = record zeroed { info = chain.info; pool = 1 }

abbrev with_zero_red : Stores
with_zero_red = record chain { red = zeroed.red }

abbrev with_zero_unb : Stores
with_zero_unb = record with_zero_red { unb = zeroed.unb }

reds-reset :
    reset_table
      (keepers false).redelegations
      zero_heights
      redelegation_not_set
      redelegations_unreadable
      chain
    ≡ ok with_zero_red
unfolding reset_all reset_table
reds-reset = refl

unbs-reset :
    reset_table
      (keepers false).unbonding_delegations
      zero_heights
      unbonding_not_set
      unbondings_unreadable
      with_zero_red
    ≡ ok with_zero_unb
unfolding reset_all reset_table
unbs-reset = refl

validators-reset :
    reset_validators (keepers false) (codes "w" ∷ []) (key ∷ []) with_zero_unb ≡ ok unclosed
unfolding reset_validators reset_validator
validators-reset = refl

prep_staking_unclosed_example :
    (prep_staking (keepers false) (codes "w" ∷ []) chain ≡ ok unclosed)
    × (unclosed.info ≡ chain.info)
prep_staking_unclosed_example =
    prep_staking_unclosed (keepers false) (λ s. s.info)
      (λ k u s s' h. ap (λ q. q.info) (sym (set_one k s (record s { red = u }) s' h).1))
      (λ k u s s' h. ap (λ q. q.info) (sym (set_one k s (record s { unb = u }) s' h).1))
      (λ k v s s' h. ap (λ q. q.info) (sym (some_same h))) (codes "w" ∷ []) chain with_zero_red
      with_zero_unb unclosed reds-reset unbs-reset validators-reset refl
