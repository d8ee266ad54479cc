-- ===== src/Testnet/Init/Nodes.antt =====
-- What the loop over the validators of `initTestnetFiles`, evmd/cmd/evmd/cmd/testnet.go, leaves.
use mathlib.Core.Path.{ap₂}
use mathlib.Core.List.{append_assoc}
use mathlib.Core.Option
use zk_cosmos_eth_bridge.Common.{
  ℕ, zero, suc, ◌≡◌, refl, ap, sym, ◌∙◌, Option, none, some, List, [], ◌∷◌, ◌++◌, map,
  if◌then◌else◌, Bytes, codes, length, get_elem?, Outcome, ok, or_err,
}
use zk_cosmos_eth_bridge.Common.Int.{ℤ, pos, negsuc}
use zk_cosmos_eth_bridge.Codec.Decimal.{decimal}
use zk_cosmos_eth_bridge.Export.Zeroed.{or_err-ok}
use zk_cosmos_eth_bridge.Prover.Witness.Laws.{bind-eq-ok}
use zk_cosmos_eth_bridge.Testnet.Powers.{tokens_from_power}
use zk_cosmos_eth_bridge.Testnet.Init.{
  NodeCalls, removed_output, kept_output, InitArgs, NodeFiles, must, add_extra_accounts, extra_at,
  power_or_panic, coin_or_panic, join_path, node_dir, init_node, init_nodes, owners,
}

pub ok-injective : {E A : Type 0} {a b : A} → ◌≡◌ {A = Outcome E A} (ok a) (ok b) → a ≡ b
ok-injective h = cc

add_extra_accounts-all :
    (extra : List (Option Bytes)) {accounts : List Bytes}
    → add_extra_accounts extra ≡ ok accounts
    → map some accounts ≡ extra
unfolding add_extra_accounts
add_extra_accounts-all [] {accounts} h = let same : [] ≡ accounts = cc in ap (map some) (sym same)
add_extra_accounts-all (none ∷ extra) h = cc
add_extra_accounts-all (some a ∷ extra) {accounts} h =
    let (rest, rec, h1) = bind-eq-ok (add_extra_accounts extra) _ h in
    let same : a ∷ rest ≡ accounts = cc in
    ap (map some) (sym same) ∙ ap (λ t. some a ∷ t) (add_extra_accounts-all extra rec)

coin_or_panic-ok : (t : ℤ) {c : ℤ} → coin_or_panic t ≡ ok c → t ≡ c
coin_or_panic-ok (pos n) h = ok-injective h
coin_or_panic-ok (negsuc n) h = cc

map-append : {A B : Type 0} (f : A → B) (xs ys : List A) → map f (xs ++ ys) ≡ map f xs ++ map f ys
map-append f [] ys = refl
map-append f (x ∷ xs) ys = ap (λ t. f x ∷ t) (map-append f xs ys)

-- The genesis files of `n` validators, from validator `i` on.
abbrev pub files_from : InitArgs → ℕ → ℕ → List Bytes
files_from args i zero = []
files_from args i (suc n) =
    (args.output_dir
      ++ (codes "/"
          ++ (args.node_dir_prefix
              ++ (decimal i
                  ++ (codes "/" ++ (args.node_daemon_home ++ codes "/config/genesis.json"))))))
    ∷ files_from args (suc i) n

-- The tokens of the powers at the positions of `n` validators, from validator `i` on.
abbrev pub tokens_at : ℕ → List ℤ → ℕ → ℕ → List (Option ℤ)
tokens_at pr powers i zero = []
tokens_at pr powers i (suc n) =
    Option.map (tokens_from_power pr) (get_elem? powers i) ∷ tokens_at pr powers (suc i) n

power_or_panic-ok : (o : Option ℤ) {p : ℤ} → power_or_panic o ≡ ok p → o ≡ some p
power_or_panic-ok none h = cc
power_or_panic-ok (some power) h = cc

-- The path of a validator's genesis file, with its separators to the right.
node_file :
    (args : InitArgs) (i : ℕ)
    → join_path (node_dir args i) (codes "config/genesis.json")
      ≡ args.output_dir
        ++ (codes "/"
            ++ (args.node_dir_prefix
                ++ (decimal i
                    ++ (codes "/" ++ (args.node_daemon_home ++ codes "/config/genesis.json")))))
node_file args i = simp (append_assoc)

module _ (pr : ℕ) (extra : List (Option Bytes)) (args : InitArgs) where
  -- What a validator's files take of its key, the extra accounts and the powers.
  abbrev IsNode : ℕ → NodeCalls → NodeFiles → Type 0
  IsNode i c node =
      (c.key_address ≡ some node.owner)
      × (extra_at i extra ≡ ok node.extra)
      × (node.gen_file ≡ join_path (node_dir args i) (codes "config/genesis.json"))
      × (Option.map (tokens_from_power pr) (get_elem? args.validator_powers i) ≡ some node.bonded)

  init_node-IsNode :
      (i : ℕ) (c : NodeCalls) {node : NodeFiles}
      → init_node pr extra args i c ≡ ok node
      → IsNode i c node
  unfolding init_node
  init_node-IsNode i c {node} h =
      let (_, _, h1) = bind-eq-ok (must c.makes_dir removed_output) _ h in
      let (ip, _, h2) =
        bind-eq-ok
          (or_err (if args.single_machine then some (codes "127.0.0.1") else c.ip) removed_output) _
          h1 in
      let (_, _, h3) = bind-eq-ok (must c.applies_config removed_output) _ h2 in
      let (id, _, h4) = bind-eq-ok (or_err c.node_id removed_output) _ h3 in
      let (_, _, h5) = bind-eq-ok (must c.opens_keyring kept_output) _ h4 in
      let (_, _, h6) = bind-eq-ok (must c.finds_algo kept_output) _ h5 in
      let (addr, keyed, h7) = bind-eq-ok (or_err c.key_address removed_output) _ h6 in
      let (_, _, h8) = bind-eq-ok (must c.writes_seed kept_output) _ h7 in
      let (accounts, added, h9) = bind-eq-ok (extra_at i extra) _ h8 in
      let (power, at, h10) = bind-eq-ok (power_or_panic (get_elem? args.validator_powers i)) _ h9 in
      let (tokens, coined, h16) = bind-eq-ok (coin_or_panic (tokens_from_power pr power)) _ h10 in
      let (_, _, h11) = bind-eq-ok (must c.makes_message kept_output) _ h16 in
      let (_, _, h12) = bind-eq-ok (must c.sets_message kept_output) _ h11 in
      let (_, _, h13) = bind-eq-ok (must c.signs kept_output) _ h12 in
      let (_, _, h14) = bind-eq-ok (must c.encodes kept_output) _ h13 in
      let (_, _, h15) = bind-eq-ok (must c.writes_gentx kept_output) _ h14 in
      let same = ok-injective h15 in
      (
        or_err-ok c.key_address removed_output keyed ∙ ap (λ (n : NodeFiles). some n.owner) same,
        added ∙ ap (λ (n : NodeFiles). ok n.extra) same,
        sym (ap (λ (n : NodeFiles). n.gen_file) same),
        ap (Option.map (tokens_from_power pr))
              (power_or_panic-ok (get_elem? args.validator_powers i) at)
            ∙ ap some (coin_or_panic-ok (tokens_from_power pr power) coined)
            ∙ ap (λ (n : NodeFiles). some n.bonded) same,
      )

  -- The files and the bonds of the validators, in order.
  pub init_nodes-lists :
      (i : ℕ) (calls : List NodeCalls) {nodes : List NodeFiles}
      → init_nodes pr extra args i calls ≡ ok nodes
      → (map (λ n. n.gen_file) nodes ≡ files_from args i (length calls))
        × (map (λ n. some n.bonded) nodes ≡ tokens_at pr args.validator_powers i (length calls))
  unfolding init_nodes
  init_nodes-lists i [] {nodes} h =
      let same : [] ≡ nodes = cc in
      (
        ap (map (λ (n : NodeFiles). n.gen_file)) (sym same),
        ap (map (λ (n : NodeFiles). some n.bonded)) (sym same),
      )
  init_nodes-lists i (c ∷ calls) {nodes} h =
      let (node, one, h1) = bind-eq-ok (init_node pr extra args i c) _ h in
      let (rest, rec, h2) = bind-eq-ok (init_nodes pr extra args (suc i) calls) _ h1 in
      let same : node ∷ rest ≡ nodes = cc in
      let (_, _, file, bond) = init_node-IsNode i c one in
      let (files, bonds) = init_nodes-lists (suc i) calls rec in
      (
        ap (map (λ (n : NodeFiles). n.gen_file)) (sym same)
            ∙ ap₂ (λ x t. x ∷ t) (file ∙ node_file args i) files,
        ap (map (λ (n : NodeFiles). some n.bonded)) (sym same)
            ∙ ap₂ (λ x t. x ∷ t) (sym bond) bonds,
      )

  -- The validators behind the first add no other accounts.
  owners-later :
      (i : ℕ) (calls : List NodeCalls) {nodes : List NodeFiles}
      → init_nodes pr extra args (suc i) calls ≡ ok nodes
      → map some (owners nodes) ≡ map (λ c. c.key_address) calls
  unfolding init_nodes
  owners-later i [] {nodes} h =
      let same : [] ≡ nodes = cc in ap (λ n. map some (owners n)) (sym same)
  owners-later i (c ∷ calls) {nodes} h =
      let (node, one, h1) = bind-eq-ok (init_node pr extra args (suc i) c) _ h in
      let (rest, rec, h2) = bind-eq-ok (init_nodes pr extra args (suc (suc i)) calls) _ h1 in
      let same : node ∷ rest ≡ nodes = cc in
      let (keyed, added, _, _) = init_node-IsNode (suc i) c one in
      let none_added : [] ≡ node.extra = ok-injective added in
      ap (λ n. map some (owners n)) (sym same)
      ∙ ap (λ a. some node.owner ∷ map some (a ++ owners rest)) (sym none_added)
      ∙ ap₂ (λ x t. x ∷ t) (sym keyed) (owners-later (suc i) calls rec)

  pub owners-all :
      (c : NodeCalls) (calls : List NodeCalls) {nodes : List NodeFiles}
      → init_nodes pr extra args 0 (c ∷ calls) ≡ ok nodes
      → map some (owners nodes) ≡ c.key_address ∷ (extra ++ map (λ o. o.key_address) calls)
  unfolding init_nodes
  owners-all c calls {nodes} h =
      let (node, one, h1) = bind-eq-ok (init_node pr extra args 0 c) _ h in
      let (rest, rec, h2) = bind-eq-ok (init_nodes pr extra args 1 calls) _ h1 in
      let same : node ∷ rest ≡ nodes = cc in
      let (keyed, added, _, _) = init_node-IsNode 0 c one in
      ap (λ n. map some (owners n)) (sym same)
      ∙ ap (λ t. some node.owner ∷ t) (map-append some node.extra (owners rest))
      ∙ ap₂ (λ x t. x ∷ t) (sym keyed)
          (ap₂ (λ x t. x ++ t) (add_extra_accounts-all extra added) (owners-later 0 calls rec))
