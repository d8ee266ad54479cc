-- ===== src/App/Modules.antt =====
-- The modules of evmd/app.go and the orders in which they run.
use zk_cosmos_eth_bridge.Common.{
  ℕ, suc, ◌+◌, ◌≡◌, refl, Bool, true, false, Option, none, some, List, [], ◌∷◌, if◌then◌else◌, ◌==◌,
  ltb,
}

-- The modules of the manager, by what their names stand for.
pub data Module : Type 0 where
  genutil auth bank feegrant gov mint slashing distribution staking upgrade evidence authz consensus
        vesting ibc tendermint transfer evm feemarket erc20 precisebank :
      Module

abbrev pub number : Module → ℕ
number genutil = 0
number auth = 1
number bank = 2
number feegrant = 3
number gov = 4
number mint = 5
number slashing = 6
number distribution = 7
number staking = 8
number upgrade = 9
number evidence = 10
number authz = 11
number consensus = 12
number vesting = 13
number ibc = 14
number tendermint = 15
number transfer = 16
number evm = 17
number feemarket = 18
number erc20 = 19
number precisebank = 20

abbrev pub same_module : Module → Module → Bool
same_module a b = number a == number b

-- `module.NewManager`
abbrev pub managed : List Module
managed =
    genutil ∷ auth ∷ bank ∷ feegrant ∷ gov ∷ mint ∷ slashing ∷ distribution ∷ staking ∷ upgrade
    ∷ evidence ∷ authz ∷ consensus ∷ vesting ∷ ibc ∷ tendermint ∷ transfer ∷ evm ∷ feemarket ∷ erc20
    ∷ precisebank ∷ []

-- `SetOrderPreBlockers`
abbrev pub pre_block_order : List Module
pre_block_order = upgrade ∷ auth ∷ evm ∷ []

-- `SetOrderBeginBlockers`
abbrev pub begin_block_order : List Module
begin_block_order =
    mint ∷ ibc ∷ transfer ∷ erc20 ∷ feemarket ∷ evm ∷ distribution ∷ slashing ∷ evidence ∷ staking
    ∷ auth ∷ bank ∷ gov ∷ genutil ∷ authz ∷ feegrant ∷ consensus ∷ precisebank ∷ vesting ∷ []

-- `SetOrderEndBlockers`
abbrev pub end_block_order : List Module
end_block_order =
    gov ∷ staking ∷ auth ∷ bank ∷ evm ∷ erc20 ∷ feemarket ∷ ibc ∷ transfer ∷ distribution ∷ slashing
    ∷ mint ∷ genutil ∷ evidence ∷ authz ∷ feegrant ∷ upgrade ∷ consensus ∷ precisebank ∷ vesting
    ∷ []

-- `SetOrderInitGenesis` and `SetOrderExportGenesis`
abbrev pub genesis_order : List Module
genesis_order =
    auth ∷ bank ∷ distribution ∷ staking ∷ slashing ∷ gov ∷ mint ∷ ibc ∷ evm ∷ feemarket ∷ erc20
    ∷ precisebank ∷ transfer ∷ genutil ∷ evidence ∷ authz ∷ feegrant ∷ upgrade ∷ vesting ∷ []

unfoldable pub count : Module → List Module → ℕ
count m [] = 0
count m (n ∷ ns) = if same_module m n then count m ns + 1 else count m ns

-- The place of a module in an order, counted from 0.
unfoldable pub place : Module → List Module → Option ℕ
place m [] = none
place m (n ∷ ns) =
    if same_module m n then some 0 else elim (place m ns) [ none ↦ none | some k ↦ some (suc k) ]

abbrev pub both_before : Option ℕ → Option ℕ → Bool
both_before (some a) (some b) = ltb a b
both_before none b = false
both_before (some a) none = false

-- Both modules run in this order, the first before the second.
abbrev pub Before : Module → Module → List Module → Type 0
Before m n order = both_before (place m order) (place n order) ≡ true

-- Each managed module stands once in the order of the begin blockers, of the end blockers and of the
-- genesis. The exceptions are the light client in all three, the upgrade module in the first and
-- the consensus parameters in the third, which do not stand there. No order has a module twice.
pub orders_complete :
    (m : Module)
    → (count m managed ≡ 1)
      × (count m begin_block_order
          ≡ (if same_module m tendermint then 0 else if same_module m upgrade then 0 else 1))
      × (count m end_block_order ≡ (if same_module m tendermint then 0 else 1))
      × (count m genesis_order
          ≡ (if same_module m tendermint then 0 else if same_module m consensus then 0 else 1))
unfolding count
orders_complete genutil = (refl, refl, refl, refl)
orders_complete auth = (refl, refl, refl, refl)
orders_complete bank = (refl, refl, refl, refl)
orders_complete feegrant = (refl, refl, refl, refl)
orders_complete gov = (refl, refl, refl, refl)
orders_complete mint = (refl, refl, refl, refl)
orders_complete slashing = (refl, refl, refl, refl)
orders_complete distribution = (refl, refl, refl, refl)
orders_complete staking = (refl, refl, refl, refl)
orders_complete upgrade = (refl, refl, refl, refl)
orders_complete evidence = (refl, refl, refl, refl)
orders_complete authz = (refl, refl, refl, refl)
orders_complete consensus = (refl, refl, refl, refl)
orders_complete vesting = (refl, refl, refl, refl)
orders_complete ibc = (refl, refl, refl, refl)
orders_complete tendermint = (refl, refl, refl, refl)
orders_complete transfer = (refl, refl, refl, refl)
orders_complete evm = (refl, refl, refl, refl)
orders_complete feemarket = (refl, refl, refl, refl)
orders_complete erc20 = (refl, refl, refl, refl)
orders_complete precisebank = (refl, refl, refl, refl)

-- The orders that the notes of the source ask for: the upgrade first, slashing behind distribution, the
-- EVM behind the fee market at the beginning of a block and in front of it at its end, and the
-- genesis transactions behind staking, accounts and the fee market.
orders_as_noted :
    Before upgrade auth pre_block_order
    × Before upgrade evm pre_block_order
    × Before distribution slashing begin_block_order
    × Before feemarket evm begin_block_order
    × Before evm feemarket end_block_order
    × Before erc20 feemarket end_block_order
    × Before staking genutil genesis_order
    × Before auth genutil genesis_order
    × Before feemarket genutil genesis_order
unfolding place
orders_as_noted = (refl, refl, refl, refl, refl, refl, refl, refl, refl)
