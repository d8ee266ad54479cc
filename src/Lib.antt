-- ===== src/Lib.antt =====
-- The zk-SNARK bridge from a Cosmos EVM chain to Ethereum, and the testnet tool of its chain.
--
-- A user locks an amount on the source chain (zk-bridge/contracts/BridgeSource.sol). The relayer
-- (zk-bridge/cmd/relayer/main.go) hears of the transaction, asks the Cosmos node for it
-- (zk-bridge/pkg/rpc/cosmos.go), reads the lock event, proves that the transaction lies under the
-- block's data root (zk-bridge/pkg/prover/prover.go with the circuit of
-- zk-bridge/pkg/circuits/bridge.go), sets the root on Ethereum and submits the proof to
-- zk-bridge/contracts/BridgeDestination.sol, which mints.
--
-- Files:
--   Common: the shared types and lemmas. Common/Returns has `Outcome`, how a Go function ends: a
--     value, an error or a panic.
--   Codec: Go's standard hex, base64, big-endian and decimal conversions as far as they are used.
--   Rpc/Types, Rpc/Client: the response types and `GetTxDetails`; Rpc/Hash: `DecodeHash`;
--     Rpc/EvmHash: `GetEvmHash` and `decodeStringIfSmall`.
--   Circuit/Api: gnark's operations as an interface; Circuit/Define: `ZkBridgeCircuit`, `Define` and
--     `unpack`; Circuit/Merkle: the independent description of a Merkle path, by RFC 6962 nodes.
--   Prover/Witness and Prover/Generate: `GenerateProof`; Prover/Lock: `FetchLockDetails`;
--     Prover/Submit: `SubmitProof` and `UpdateRoot`.
--   Contracts/Source and Contracts/Destination: the two contracts, the latter as a step relation.
--   Relayer: `processEvent` and its retries; Relayer/Announced: what a message announces;
--     Relayer/Main: `init` and the two loops of `main` as a step relation; Relayer/Race: two runs that share the proof file.
--   Deploy: zk-bridge/cmd/deployer/main.go.
--   Export: `prepForZeroHeightGenesis` of evmd/export.go; Export/Reset: its loops over a table;
--     Export/Exported: `ExportAppStateAndValidators`.
--   Network/Wait and Network/Box: the waits and the mnemonic box of evmd/tests/network/network.go;
--     Network/Pool: its pool of ports; Network/New: the loop of `New` over the validators;
--     Network/Genesis and Network/Start: `initGenFiles`, `collectGenFiles` and `startInProcess` of
--     evmd/tests/network/util.go; Network/Life: `New` and `Cleanup` with the lock they share.
--   Overrides: evmd/cmd/evmd/cmd/testnet_utils.go on a tree of fields.
--   Testnet: the powers, addresses, ports and genesis of evmd/cmd/evmd/cmd/testnet.go;
--     Testnet/Flags and Testnet/Command: its commands and their flags; Testnet/Start: `startTestnet`,
--     which uses Network.
--   Root: `newApp`, `appExport` and `getChainIDFromOpts` of evmd/cmd/evmd/cmd/root.go; Root/Creator:
--     those of creator.go.
--   App: the modules, genesis, mempool and end of the application, of evmd/app.go, evmd/genesis.go and
--     evmd/mempool.go; App/Settings: what it reads of the options that Root passes; App/Upgrade:
--     evmd/upgrades.go and `InitChainer`.
--   Blocks: evmd/testutil/abci.go and evmd/testutil/integration.go; Setup: evmd/testutil/eth_setup.go.
--   Tests: runs at concrete inputs.
--
-- Conventions: a text and a byte array are lists of numbers. A dropped Go error is the value that the
-- call leaves, and a nil pointer that is used is a panic. Every loop is structural recursion; the
-- digits of a number are made on fuel of its value and one, which its number of digits never passes.
-- The values of the circuit are assignments: an assignment satisfies the constraints where `define`
-- gives a value.
--
-- Parameters: gnark (`Api` with `IsGnark`, `Backend` with `IsProver`), the Cosmos node (`Node`), the
-- EVM nodes (`EvmNode`, `EthNode`), go-ethereum's conversions (`EthCommon` with `IsEthCommon`), the
-- verifier and the ERC20 base of the destination contract (`Chain`), the keepers of the Cosmos SDK
-- (`Keepers` with `IsKeepers`), `time.ParseDuration`, the conversions of `cast` (`Cast`), the
-- application under test (`EvmApp`) and what the calls of the SDK and the file system return
-- (`NodeCalls`, `NetworkCalls`, `Environment`, `AppCalls`, `Defaults`, `UpgradeKeepers`, `Sdk` with
-- `IsSdk`, `DeployCalls`). The laws state what their documentation promises. Flags are registered,
-- set and read as pflag does, with the slices that a repeated flag appends to; a command line is the
-- sequence of its flags with values of their kinds.
--
-- Not modelled: printing, the connections that a process holds, the key setup (gnark calls in a row),
-- and the text of JSON documents: a decoded document is the value that it stands for. The keepers of
-- the evmd application are the Cosmos SDK's; the long constructor that wires them, the cobra commands
-- and the fields of a configuration that nothing here reads are left out.
pub mod Common
pub mod Codec
pub mod Rpc
pub mod Circuit
pub mod Prover
pub mod Contracts
pub mod Relayer
pub mod Export
pub mod Network
pub mod Overrides
pub mod Testnet
pub mod Root
pub mod App
pub mod Blocks
pub mod Setup
pub mod Deploy
pub mod Tests
