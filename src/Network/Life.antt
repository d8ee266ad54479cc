-- ===== src/Network/Life.antt =====
-- `New` and `Cleanup` of evmd/tests/network/network.go: the lock that they share, the pool of ports
-- and what runs in the process.
pub mod Laws
pub mod Cleanup
pub mod Made
use zk_cosmos_eth_bridge.Common.{
  ℕ, zero, suc, Bool, true, false, Option, none, some, List, [], ◌∷◌, map, if◌then◌else◌, Bytes,
  Outcome, ok, err, panic,
}
use zk_cosmos_eth_bridge.Common.Int.{ℤ, pos, negsuc}
use zk_cosmos_eth_bridge.Network.Pool.{NewError, Drawing}
use zk_cosmos_eth_bridge.Network.New.{Config, ValidatorCalls, Validator, prepare_validators}
use zk_cosmos_eth_bridge.Network.Genesis.{
  Coin, Genesis, Collected, init_gen_files, collect_network_files,
}
use zk_cosmos_eth_bridge.Network.Start.{Running, stopped, StartCalls, start_all}

-- The state of the process: the network lock, the pool, and what runs.
pub record World : Type 0 where
  pub locked : Bool
  pub pool : List Bytes
  pub running : List Running

-- The process as it starts. Nothing in the package puts a port into the pool.
abbrev pub fresh : World
fresh = record { locked = false; pool = []; running = [] }

-- All that the calls of a construction return; validator `i` has those at `i`.
pub record NetworkCalls : Type 0 where
  pub prepares : ℕ → ValidatorCalls
  pub new_coins : List Coin → List Coin
  pub genesis : Genesis
  pub packs : Bool
  pub marshals : Bool
  pub saves : List Bool
  pub collects : List Collected
  pub starts : ℕ → StartCalls

pub record Network : Type 0 where
  pub base_dir : Bytes
  pub validators : List Validator
  pub config : Config
  pub genesis : Genesis

abbrev pub with_calls : (ℕ → StartCalls) → ℕ → List Validator → List (Validator × StartCalls)
with_calls calls i [] = []
with_calls calls i (v ∷ vs) = (v, calls i) ∷ with_calls calls (suc i) vs

abbrev pub Result : Type 0
Result = Outcome NewError Network × World

-- What is left of the process where the construction ends before the validators are started.
abbrev pub ended : Outcome NewError Network → List Bytes → Result
ended o pool = (o, record { locked = true; pool = pool; running = [] })

abbrev pub started : Network → List Bytes → Outcome NewError (Unit {0}) × List Running → Result
started n pool (ok u, rs) = (ok n, record { locked = true; pool = pool; running = rs })
started n pool (err e, rs) = (err e, record { locked = true; pool = pool; running = rs })
started n pool (panic, rs) = (panic, record { locked = true; pool = pool; running = rs })

abbrev pub collected :
    Config
    → Bytes
    → NetworkCalls
    → List Validator
    → List Bytes
    → Genesis
    → Outcome NewError (List Bytes)
    → Result
collected cfg base_dir c vs pool g (ok states) =
    started (record { base_dir = base_dir; validators = vs; config = cfg; genesis = g }) pool
      (start_all (with_calls c.starts 0 vs))
collected cfg base_dir c vs pool g (err e) = ended (err e) pool
collected cfg base_dir c vs pool g panic = ended panic pool

abbrev pub generated :
    Config → Bytes → NetworkCalls → List Validator → List Bytes → Outcome NewError Genesis → Result
generated cfg base_dir c vs pool (ok g) =
    collected cfg base_dir c vs pool g (collect_network_files c.collects)
generated cfg base_dir c vs pool (err e) = ended (err e) pool
generated cfg base_dir c vs pool panic = ended panic pool

-- Behind the loop over the validators.
abbrev pub prepared :
    Config → Bytes → NetworkCalls → Outcome NewError (List Validator) × List Bytes → Result
prepared cfg base_dir c (ok vs, pool) =
    generated cfg base_dir c vs pool
      (init_gen_files c.new_coins cfg c.genesis vs c.packs c.marshals c.saves)
prepared cfg base_dir c (err e, pool) = ended (err e) pool
prepared cfg base_dir c (panic, pool) = ended panic pool

-- A negative number of validators makes `make` panic.
unfoldable pub construct_network : Config → Bytes → NetworkCalls → ℤ → List Bytes → Result
construct_network cfg base_dir c (pos n) pool =
    prepared cfg base_dir c (prepare_validators cfg base_dir c.prepares n 0 pool)
construct_network cfg base_dir c (negsuc n) pool = ended panic pool

-- `New`; none where it waits for the lock, which nothing releases while it waits.
unfoldable pub new_network : Config → Bytes → NetworkCalls → World → Option Result
unfolding construct_network
new_network cfg base_dir c w =
    if w.locked then none else some (construct_network cfg base_dir c cfg.num_validators w.pool)

-- The loop of `Cleanup` over the validators, each of which has started what is at its position of what
-- runs; nothing was started for the positions behind the end.
unfoldable pub stop_validators : List Validator → List Running → List Running
stop_validators [] rs = rs
stop_validators (v ∷ vs) [] = []
stop_validators (v ∷ vs) (r ∷ rs) = stopped ∷ stop_validators vs rs

-- `Cleanup` of a network: what its validators run is stopped, and the lock is released; releasing a
-- lock that is not held is fatal.
unfoldable pub cleanup : Network → World → Outcome NewError World
unfolding stop_validators
cleanup n w =
    if w.locked
    then ok
        (record { locked = false; pool = w.pool; running = stop_validators n.validators w.running })
    else panic
