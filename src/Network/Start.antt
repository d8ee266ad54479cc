-- ===== src/Network/Start.antt =====
-- `startInProcess` of evmd/tests/network/util.go.
use zk_cosmos_eth_bridge.Common.{
  Bool, true, false, Option, none, some, List, [], ◌∷◌, if◌then◌else◌, Outcome, ok, err, panic,
  Bytes,
}
use zk_cosmos_eth_bridge.Network.Pool.{NewError, start_failed}
use zk_cosmos_eth_bridge.Network.New.{Validator, is_set}

-- What runs for a validator.
pub record Running : Type 0 where
  pub tm_node : Bool
  pub api : Bool
  pub grpc : Bool
  pub json_rpc : Bool

abbrev pub stopped : Running
stopped = record { tm_node = false; api = false; grpc = false; json_rpc = false }

-- What the calls that start a validator return.
pub record StartCalls : Type 0 where
  pub validates : Bool
  pub loads_key : Bool
  pub makes_node : Bool
  pub starts_node : Bool
  pub makes_grpc : Bool
  pub starts_json_rpc : Bool
  pub dials : Bool

-- The end of a start, and what runs then.
abbrev pub Started : Type 0
Started = Outcome NewError (Unit {0}) × Running

-- `Enable && Address != ""`
abbrev pub is_served : Option Bytes → Bool
is_served none = false
is_served (some a) = is_set a

abbrev pub is_enabled : Option Bytes → Bool
is_enabled none = false
is_enabled (some a) = true

-- The JSON-RPC server; it runs also where the client does not reach it.
unfoldable pub start_json_rpc : Validator → StartCalls → Running → Started
start_json_rpc v c r =
    if is_served v.listening.json_rpc_address
    then (if c.starts_json_rpc
        then (if c.dials then ok tt else err start_failed, record r { json_rpc = true })
        else (err start_failed, r))
    else (ok tt, r)

unfoldable pub start_grpc : Validator → StartCalls → Running → Started
start_grpc v c r =
    if is_enabled v.listening.grpc_address
    then (if c.makes_grpc
        then start_json_rpc v c (record r { grpc = true })
        else (err start_failed, r))
    else start_json_rpc v c r

-- The node runs; the API server of the first validator comes next.
unfoldable pub start_servers : Validator → StartCalls → Started
start_servers v c = start_grpc v c (record {
  tm_node = true;
  api = is_set v.listening.api_address;
  grpc = false;
  json_rpc = false;
})

unfoldable pub start_in_process : Validator → StartCalls → Started
start_in_process v c =
    if c.validates
    then (if c.loads_key
        then (if c.makes_node
            then (if c.starts_node then start_servers v c else (err start_failed, stopped))
            else (err start_failed, stopped))
        else (err start_failed, stopped))
    else (err start_failed, stopped)

abbrev pub and_start :
    Outcome NewError (Unit {0})
    → Running
    → Outcome NewError (Unit {0}) × List Running
    → Outcome NewError (Unit {0}) × List Running
and_start (ok u) r (o, rs) = (o, r ∷ rs)
and_start (err e) r (o, rs) = (err e, r ∷ [])
and_start panic r (o, rs) = (panic, r ∷ [])

-- The loop that starts the validators, until one fails.
unfoldable pub start_all :
    List (Validator × StartCalls) → Outcome NewError (Unit {0}) × List Running
start_all [] = (ok tt, [])
start_all ((v, c) ∷ rest) =
    let step = start_in_process v c in and_start step.0 step.1 (start_all rest)
