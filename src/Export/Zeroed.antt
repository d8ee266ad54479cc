-- ===== src/Export/Zeroed.antt =====
-- What `prepForZeroHeightGenesis` of evmd/export.go leaves.
use zk_cosmos_eth_bridge.Common.{
  ℕ, ◌≡◌, refl, ap, sym, ◌∙◌, true, Option, none, some, List, [], ◌∷◌, map, if◌then◌else◌, Bytes,
  All, ok, or_err,
}
use mathlib.Core.Path.{subst}
use zk_cosmos_eth_bridge.Prover.Witness.Laws.{bind-eq-ok}
use zk_cosmos_eth_bridge.Export.Reset.{
  Table, IsTable, Distinct, mapped, reset_all, reset_all-entries, reset_table, reset_table-ok,
}
use zk_cosmos_eth_bridge.Export.{
  Keepers, Validator, Unbonding, SigningInfo, redelegation_not_set, unbonding_not_set,
  validator_not_found, validator_not_set, signing_info_not_set, redelegations_unreadable,
  unbondings_unreadable, signing_infos_unreadable, zero_heights, zero_start, or_die, check_allowed,
  reset_validator, reset_validators, prep_distribution, prep_slashing, prep_staking,
  prep_for_zero_height_genesis,
}

-- What is relied on of the SDK's stores: the three tables are tables with different keys, and the
-- calls that follow a reset do not change what was reset.
pub record IsKeepers {St Coins : Type 0} (k : Keepers St Coins) : Type 0 where
  pub redelegations-IsTable : IsTable k.redelegations
  pub unbondings-IsTable : IsTable k.unbonding_delegations
  pub infos-IsTable : IsTable k.signing_infos
  pub redelegations-Distinct : (s : St) → Distinct (k.redelegations.entries s)
  pub unbondings-Distinct : (s : St) → Distinct (k.unbonding_delegations.entries s)
  pub infos-Distinct : (s : St) → Distinct (k.signing_infos.entries s)
  pub unbonding_keeps :
      (key : Bytes) (v : Unbonding) (s s' : St)
      → k.unbonding_delegations.set key v s ≡ some s'
      → k.redelegations.entries s' ≡ k.redelegations.entries s
  pub validator_keeps :
      (key : Bytes) (v : Validator) (s s' : St)
      → k.set_validator key v s ≡ some s'
      → (k.redelegations.entries s' ≡ k.redelegations.entries s)
        × (k.unbonding_delegations.entries s' ≡ k.unbonding_delegations.entries s)
  pub apply_keeps :
      (s s' : St)
      → k.apply_validator_set_updates s ≡ some s'
      → (k.redelegations.entries s' ≡ k.redelegations.entries s)
        × (k.unbonding_delegations.entries s' ≡ k.unbonding_delegations.entries s)
  pub info_keeps :
      (key : Bytes) (v : SigningInfo) (s s' : St)
      → k.signing_infos.set key v s ≡ some s'
      → (k.redelegations.entries s' ≡ k.redelegations.entries s)
        × (k.unbonding_delegations.entries s' ≡ k.unbonding_delegations.entries s)

abbrev pub HasZeroHeights : List (Bytes × Unbonding) → Type 0
HasZeroHeights entries = All (λ e. All (λ h. h ≡ 0) e.1.creation_heights) entries

abbrev pub StartsAtZero : List (Bytes × SigningInfo) → Type 0
StartsAtZero entries = All (λ e. e.1.start_height ≡ 0) entries

zeros : (hs : List ℕ) → All {A = ℕ} (λ h. h ≡ 0) (map (λ h. 0) hs)
zeros [] = tt
zeros (h ∷ hs) = (refl, zeros hs)

mapped-HasZeroHeights :
    (entries : List (Bytes × Unbonding)) → HasZeroHeights (mapped zero_heights entries)
mapped-HasZeroHeights [] = tt
mapped-HasZeroHeights ((key, u) ∷ rest) = (zeros u.creation_heights, mapped-HasZeroHeights rest)

mapped-StartsAtZero :
    (entries : List (Bytes × SigningInfo)) → StartsAtZero (mapped zero_start entries)
mapped-StartsAtZero [] = tt
mapped-StartsAtZero ((key, info) ∷ rest) = (refl, mapped-StartsAtZero rest)

pub or_err-ok : {E A : Type 0} (o : Option A) (e : E) {a : A} → or_err o e ≡ ok a → o ≡ some a
or_err-ok none e h = cc
or_err-ok (some a) e h = cc

or_die-ok : {A : Type 0} (o : Option A) {a : A} → or_die o ≡ ok a → o ≡ some a
or_die-ok none h = cc
or_die-ok (some a) h = cc

-- What every set keeps, the loop keeps.
pub reset_all_keeps :
    {St V E X : Type 0} (t : Table St V) (f : V → V) (e : E) (g : St → X)
    → ((key : Bytes) (v : V) (s s' : St) → t.set key v s ≡ some s' → g s' ≡ g s)
    → (todo : List (Bytes × V)) (s s' : St) → reset_all t f e todo s ≡ ok s'
    → g s' ≡ g s
unfolding reset_all
reset_all_keeps t f e g keeps [] s s' h = let same : s ≡ s' = cc in ap g (sym same)
reset_all_keeps t f e g keeps ((key, v) ∷ rest) s s' h =
    let (s1, set_ok, next) = bind-eq-ok (or_err (t.set key (f v) s) e) _ h in
    reset_all_keeps t f e g keeps rest s1 s' next
    ∙ keeps key (f v) s s1 (or_err-ok (t.set key (f v) s) e set_ok)

module _ {St Coins : Type 0} (k : Keepers St Coins) where
  pub reset_validators_keeps :
      {X : Type 0} (g : St → X)
      → ((key : Bytes) (v : Validator) (s s' : St) → k.set_validator key v s ≡ some s' → g s' ≡ g s)
      → (allowed addrs : List Bytes) (s s' : St) → reset_validators k allowed addrs s ≡ ok s'
      → g s' ≡ g s
  unfolding reset_validators
  reset_validators_keeps g keeps allowed [] s s' h = let same : s ≡ s' = cc in ap g (sym same)
  reset_validators_keeps g keeps allowed (addr ∷ addrs) s s' h =
      let (v, _, h1) = bind-eq-ok (or_err (k.get_validator addr s) validator_not_found) _ h in
      let (s1, set_ok, next) =
        bind-eq-ok
          (or_err (k.set_validator addr (reset_validator k allowed addr v) s) validator_not_set) _
          h1 in
      reset_validators_keeps g keeps allowed addrs s1 s' next
      ∙ keeps addr (reset_validator k allowed addr v) s s1 (
          or_err-ok (k.set_validator addr (reset_validator k allowed addr v) s) validator_not_set
            set_ok)

  abbrev pub redelegations_loop :
      (s s' : St)
      → reset_table k.redelegations zero_heights redelegation_not_set redelegations_unreadable s
        ≡ ok s'
      → reset_all k.redelegations zero_heights redelegation_not_set (k.redelegations.entries s) s
        ≡ ok s'
  redelegations_loop =
      reset_table-ok k.redelegations zero_heights redelegation_not_set redelegations_unreadable

  abbrev pub unbondings_loop :
      (s s' : St)
      → reset_table k.unbonding_delegations zero_heights unbonding_not_set unbondings_unreadable s
        ≡ ok s'
      → reset_all k.unbonding_delegations zero_heights unbonding_not_set
          (k.unbonding_delegations.entries s)
          s
        ≡ ok s'
  unbondings_loop =
      reset_table-ok k.unbonding_delegations zero_heights unbonding_not_set unbondings_unreadable

  abbrev infos_loop :
      (s s' : St)
      → reset_table k.signing_infos zero_start signing_info_not_set signing_infos_unreadable s
        ≡ ok s'
      → reset_all k.signing_infos zero_start signing_info_not_set (k.signing_infos.entries s) s
        ≡ ok s'
  infos_loop =
      reset_table-ok k.signing_infos zero_start signing_info_not_set signing_infos_unreadable

  -- What the staking and slashing states look like after a reset.
  pub record IsZeroed (s : St) : Type 0 where
    pub redelegations_zero : HasZeroHeights (k.redelegations.entries s)
    pub unbondings_zero : HasZeroHeights (k.unbonding_delegations.entries s)
    pub infos_zero : StartsAtZero (k.signing_infos.entries s)

  module _ (lawful : IsKeepers k) where
    prep_slashing-StartsAtZero :
        (s s' : St) → prep_slashing k s ≡ ok s' → StartsAtZero (k.signing_infos.entries s')
    unfolding prep_slashing
    prep_slashing-StartsAtZero s s' h =
        let (s1, _, walk) = bind-eq-ok (or_die (k.apply_validator_set_updates s)) _ h in
        let loop = infos_loop s1 s' walk in
        let set_all =
          reset_all-entries k.signing_infos lawful.infos-IsTable zero_start signing_info_not_set s1
            s' (lawful.infos-Distinct s1) loop in
        subst StartsAtZero (sym set_all) (mapped-StartsAtZero (k.signing_infos.entries s1))

    prep_slashing_keeps :
        (s s' : St)
        → prep_slashing k s ≡ ok s'
        → (k.redelegations.entries s' ≡ k.redelegations.entries s)
          × (k.unbonding_delegations.entries s' ≡ k.unbonding_delegations.entries s)
    unfolding prep_slashing
    prep_slashing_keeps s s' h =
        let (s1, applied, walk) = bind-eq-ok (or_die (k.apply_validator_set_updates s)) _ h in
        let loop = infos_loop s1 s' walk in
        let kept = lawful.apply_keeps s s1 (or_die-ok (k.apply_validator_set_updates s) applied) in
        (
          reset_all_keeps k.signing_infos zero_start signing_info_not_set k.redelegations.entries
                (λ key v a b e. (lawful.info_keeps key v a b e).0) _ s1 s' loop
              ∙ kept.0,
          reset_all_keeps k.signing_infos zero_start signing_info_not_set
                k.unbonding_delegations.entries (λ key v a b e. (lawful.info_keeps key v a b e).1) _
                s1 s' loop
              ∙ kept.1,
        )

    prep_staking-IsZeroed :
        ((s : St) → k.iterator_closes s ≡ true)
        → (allowed : List Bytes) (s s' : St) → prep_staking k allowed s ≡ ok s'
        → IsZeroed s'
    unfolding prep_staking
    prep_staking-IsZeroed closes allowed s s' h =
        let (s1, first_walk, h1) =
          bind-eq-ok
            (reset_table k.redelegations zero_heights redelegation_not_set redelegations_unreadable
              s)
            _ h in
        let (s2, second_walk, h2) =
          bind-eq-ok
            (reset_table k.unbonding_delegations zero_heights unbonding_not_set
              unbondings_unreadable s1)
            _ h1 in
        let first = redelegations_loop s s1 first_walk in
        let second = unbondings_loop s1 s2 second_walk in
        let (s3, third, h3) =
          bind-eq-ok (reset_validators k allowed (k.validator_keys s2) s2) _ h2 in
        let last : prep_slashing k s3 ≡ ok s' =
          sym (ap (λ b. if b then prep_slashing k s3 else ok s3) (closes s3)) ∙ h3 in
        let reds =
          reset_all-entries k.redelegations lawful.redelegations-IsTable zero_heights
            redelegation_not_set s s1 (lawful.redelegations-Distinct s) first in
        let unbs =
          reset_all-entries k.unbonding_delegations lawful.unbondings-IsTable zero_heights
            unbonding_not_set s1 s2 (lawful.unbondings-Distinct s1) second in
        let kept2 =
          reset_all_keeps k.unbonding_delegations zero_heights unbonding_not_set
            k.redelegations.entries lawful.unbonding_keeps _ s1 s2 second in
        let kept3r =
          reset_validators_keeps k.redelegations.entries
            (λ key v a b e. (lawful.validator_keeps key v a b e).0) allowed _ s2 s3 third in
        let kept3u =
          reset_validators_keeps k.unbonding_delegations.entries
            (λ key v a b e. (lawful.validator_keeps key v a b e).1) allowed _ s2 s3 third in
        let kept4 = prep_slashing_keeps s3 s' last in
        record {
          redelegations_zero =
              subst HasZeroHeights (sym (kept4.0 ∙ kept3r ∙ kept2 ∙ reds))
                (mapped-HasZeroHeights (k.redelegations.entries s));
          unbondings_zero =
              subst HasZeroHeights (sym (kept4.1 ∙ kept3u ∙ unbs))
                (mapped-HasZeroHeights (k.unbonding_delegations.entries s1));
          infos_zero = prep_slashing-StartsAtZero s3 s' last;
        }

    -- With keepers that keep their tables (`IsKeepers`) and iterators that close, a preparation
    -- that ends without an error leaves no creation height but 0 in the redelegations and the
    -- unbonding delegations, and no start height but 0 in the signing infos.
    pub prep_for_zero_height_genesis-IsZeroed :
        ((s : St) → k.iterator_closes s ≡ true)
        → (allowed : List Bytes) (s s' : St) → prep_for_zero_height_genesis k allowed s ≡ ok s'
        → IsZeroed s'
    unfolding prep_for_zero_height_genesis
    prep_for_zero_height_genesis-IsZeroed closes allowed s s' h =
        let (_, _, h1) = bind-eq-ok (check_allowed k allowed) _ h in
        let (s1, _, h2) = bind-eq-ok (prep_distribution k s) _ h1 in
        prep_staking-IsZeroed closes allowed s1 s' h2
