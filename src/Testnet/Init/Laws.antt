-- ===== src/Testnet/Init/Laws.antt =====
-- What the genesis files of `initTestnetFiles`, evmd/cmd/evmd/cmd/testnet.go, hold.
use mathlib.Core.Path.{subst}
use native.Mathlib.Nat.{mul-zero, mul-suc}
use zk_cosmos_eth_bridge.Common.{
  ℕ, suc, ◌+◌, ◌*◌, ◌≡◌, refl, ap, sym, ◌∙◌, Bool, Option, none, some, List, [], ◌∷◌, ◌++◌, map,
  arith, Bytes, length, All, Outcome, ok, err, panic,
}
use zk_cosmos_eth_bridge.Testnet.Collect.{
  Collected, CollectError, collect_gen_files, collect_gen_files_same,
}
use zk_cosmos_eth_bridge.Prover.Witness.Laws.{bind-eq-ok}
use zk_cosmos_eth_bridge.Testnet.Init.Nodes.{
  ok-injective, files_from, tokens_at, init_nodes-lists, owners-all,
}
use zk_cosmos_eth_bridge.Testnet.Init.{
  NodeCalls, kept_output, InitArgs, Balance, NodeFiles, GenesisFiles, must, or_kept, init_nodes,
  balance_of, owners, supply, genesis_files, init_testnet_files,
}

zero_add : (n : ℕ) → 0 + n ≡ n
zero_add n = omega arith

supply_all :
    (part : Balance → ℕ) (k sum : ℕ) (balances : List Balance)
    → All (λ b. part b ≡ k) balances
    → supply part sum balances ≡ sum + k * length balances
unfolding supply
supply_all part k sum [] h = let none : k * 0 ≡ 0 = mul-zero k in omega (arith, none)
supply_all part k sum (b ∷ balances) h =
    let more : k * suc (length balances) ≡ k * length balances + k = mul-suc k (length balances) in
    supply_all part k (sum + part b) balances h.1 ∙ omega (arith, h.0, more)

total :
    (part : Balance → ℕ) (k : ℕ) (balances : List Balance)
    → All (λ b. part b ≡ k) balances
    → supply part 0 balances ≡ k * length balances
total part k balances h = supply_all part k 0 balances h ∙ zero_add (k * length balances)

all_test :
    (pr : ℕ) (addrs : List Bytes) → All (λ b. b.test_tokens ≡ 1000 * pr) (map (balance_of pr) addrs)
all_test pr [] = tt
all_test pr (a ∷ addrs) = (refl, all_test pr addrs)

all_bond :
    (pr : ℕ) (addrs : List Bytes) → All (λ b. b.bond_tokens ≡ 500 * pr) (map (balance_of pr) addrs)
all_bond pr [] = tt
all_bond pr (a ∷ addrs) = (refl, all_bond pr addrs)

length-map : {A B : Type 0} (f : A → B) (xs : List A) → length (map f xs) ≡ length xs
length-map f [] = refl
length-map f (x ∷ xs) = ap suc (length-map f xs)

or_kept-ok : {A : Type 0} (o : Outcome CollectError A) {a : A} → or_kept o ≡ ok a → o ≡ ok a
or_kept-ok (ok a) h = cc
or_kept-ok (err e) h = cc
or_kept-ok panic h = cc

balances-owner :
    (pr : ℕ) (addrs : List Bytes) → map (λ b. b.owner) (map (balance_of pr) addrs) ≡ addrs
balances-owner pr [] = refl
balances-owner pr (a ∷ addrs) = ap (λ t. a ∷ t) (balances-owner pr addrs)

-- What the genesis of a testnet has: `keys` are the addresses of the validators' keys, `extra` the
-- other addresses, and `collected` the state that was collected for the first validator.
pub record IsGenesis {State : Type 0} (pr : ℕ) (args : InitArgs) (key : Option Bytes)
    (keys extra : List (Option Bytes)) (collected : Option State) (g : GenesisFiles)
    (states : List State) : Type 0 where
  pub accounts_lem : map some g.accounts ≡ key ∷ (extra ++ keys)
  pub balances_lem : map (λ b. b.owner) g.balances ≡ g.accounts
  pub test_tokens_lem : All (λ b. b.test_tokens ≡ 1000 * pr) g.balances
  pub bond_tokens_lem : All (λ b. b.bond_tokens ≡ 500 * pr) g.balances
  pub test_total : g.test_supply ≡ 1000 * pr * length g.balances
  pub bond_total : g.bond_supply ≡ 500 * pr * length g.balances
  pub files_lem : g.files ≡ files_from args 0 (suc (length keys))
  pub bonds_lem : map some g.bonds ≡ tokens_at pr args.validator_powers 0 (suc (length keys))
  pub one_state_each : length states ≡ suc (length keys)
  pub same_states : All (λ s. some s ≡ collected) states

-- Files for one validator or more that are initialized without an error: the accounts are the first
-- validator's, the extra ones and the other validators', in this order, by the addresses of the keys,
-- each with a balance of the tokens of 1000 and of 500 powers, which the supply adds up; each
-- validator has its genesis file in its directory and bonds the tokens of its power; and all files
-- have the state that was collected for the first validator.
pub init_testnet_files-IsGenesis :
    {State : Type 0} (pr : ℕ) (args : InitArgs) (c : NodeCalls × Collected State)
    (calls : List (NodeCalls × Collected State)) (extra : List (Option Bytes)) (saves : Bool)
    (g : GenesisFiles) (states : List State)
    → init_testnet_files pr args (c ∷ calls) extra saves ≡ ok (g, states)
    → IsGenesis pr args c.0.key_address
        (map (λ o. o.0.key_address) calls)
        extra
        c.1.app_state
        g
        states
unfolding init_testnet_files genesis_files
init_testnet_files-IsGenesis {State} pr args c calls extra saves g states h =
    let nodes_calls = map (λ (o : NodeCalls × Collected State). o.0) calls in
    let collects = map (λ (o : NodeCalls × Collected State). o.1) calls in
    let (nodes, made, h1) = bind-eq-ok (init_nodes pr extra args 0 (c.0 ∷ nodes_calls)) _ h in
    let (_, _, h2) = bind-eq-ok (must saves kept_output) _ h1 in
    let (out, kept, h3) = bind-eq-ok (or_kept (collect_gen_files none (c.1 ∷ collects))) _ h2 in
    let both = ok-injective h3 in
    let (files, bonds) = init_nodes-lists pr extra args 0 (c.0 ∷ nodes_calls) made in
    let (a, is_a, count, all) = collect_gen_files_same c.1 collects out (or_kept-ok _ kept) in
    let n_nodes = length-map (λ (o : NodeCalls × Collected State). o.0) calls in
    let n_states = length-map (λ (o : NodeCalls × Collected State). o.1) calls in
    let n_keys = length-map (λ (o : NodeCalls × Collected State). o.0.key_address) calls in
    let balances = map (balance_of pr) (owners nodes) in
    subst
      (λ (r : GenesisFiles × List State).
        IsGenesis pr args c.0.key_address (map (λ o. o.0.key_address) calls) extra c.1.app_state r.0
          r.1)
      both
      (record {
        accounts_lem =
            owners-all pr extra args c.0 nodes_calls made
            ∙ ap (λ t. c.0.key_address ∷ (extra ++ t)) (map-map calls);
        balances_lem = balances-owner pr (owners nodes);
        test_tokens_lem = all_test pr (owners nodes);
        bond_tokens_lem = all_bond pr (owners nodes);
        test_total = total (λ b. b.test_tokens) (1000 * pr) balances (all_test pr (owners nodes));
        bond_total = total (λ b. b.bond_tokens) (500 * pr) balances (all_bond pr (owners nodes));
        files_lem = files ∙ ap (λ n. files_from args 0 (suc n)) (n_nodes ∙ sym n_keys);
        bonds_lem =
            map-some-bonded nodes
            ∙ bonds
            ∙ ap (λ n. tokens_at pr args.validator_powers 0 (suc n)) (n_nodes ∙ sym n_keys);
        one_state_each = count ∙ ap suc (n_states ∙ sym n_keys);
        same_states = all_collected out a all is_a;
      })
  where
    map-map :
        (cs : List (NodeCalls × Collected State))
        → map (λ (o : NodeCalls). o.key_address) (map (λ o. o.0) cs) ≡ map (λ o. o.0.key_address) cs
    map-map [] = refl
    map-map (x ∷ cs) = ap (λ t. x.0.key_address ∷ t) (map-map cs)

    map-some-bonded :
        (ns : List NodeFiles)
        → map some (map (λ (n : NodeFiles). n.bonded) ns) ≡ map (λ n. some n.bonded) ns
    map-some-bonded [] = refl
    map-some-bonded (n ∷ ns) = ap (λ t. some n.bonded ∷ t) (map-some-bonded ns)

    all_collected :
        (ss : List State) (a : State)
        → All (λ s. s ≡ a) ss
        → c.1.app_state ≡ some a
        → All (λ s. some s ≡ c.1.app_state) ss
    all_collected [] a all is_a = tt
    all_collected (s ∷ ss) a all is_a = (ap some all.0 ∙ sym is_a, all_collected ss a all.1 is_a)
