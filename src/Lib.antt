-- ===== src/Lib.antt =====
-- Nexusguild: a Substrate node with its runtime and its template pallet.
--
-- The program has three parts. The template pallet keeps one `u32` in the storage of the chain and
-- has two calls that change it. The runtime puts the pallet together with those of FRAME, fixes
-- the constants of the chain and describes its genesis. The node loads a chain specification,
-- which names a preset of the runtime, and builds the service that runs the chain.
--
-- What Substrate and FRAME provide is not in this repository. It enters as records of types and
-- operations (`Frame`, `WeightApi`, `Keyring`, `Builder`, `SpecApi`, `TxApi`, `Host`, `CliHost`,
-- `GenesisHelper`, `BlockApi`, `FeeApi`, `CallCodec`, `Executive` and others), and what the code
-- relies on of it as records of laws beside them, or as hypotheses of the theorems. Each of these
-- has a concrete value in the modules of tests.
--
-- Base: Rust's `Result`, `Option` and panics, stateful code that may fail, unsigned integers,
-- lists. Base/Outcomes has the monad in which the stateful code is written: a step takes the state
-- to a result and a new state, and what was written before an error stays written.
--
-- Template/Frame, Template/Dispatch: pallets/template/src/lib.rs. `do_something` and `cause_error`
-- are `call_do_something` and `call_cause_error`; a history of calls is run by `dispatch_all`.
-- Template/Machine has the chain as a step relation, with its reachable storages. Template/Counter
-- has the abstract view of the storage item, a saturating counter; Template/Contract the contract
-- of the pallet with its callers, a machine that replies to their wishes and announces events; and
-- their siblings the properties of the calls (Errors, Events, Repeat, Order, Turns, Bags, Summary,
-- Footprint). Template/Weights: pallets/template/src/weights.rs. Template/Mock: a runtime of plain
-- data. Template/Config: the configuration trait. Template/Suite: pallets/template/src/mock.rs and
-- pallets/template/src/tests.rs. Template/Benchmarking: pallets/template/src/benchmarking.rs.
--
-- Runtime/Currency, Runtime/Time: the constants of runtime/src/lib.rs and those of
-- runtime/src/configs/mod.rs that are computed from them. Runtime/Genesis:
-- runtime/src/genesis_config_presets.rs, where the configuration that `testnet_genesis` hands to
-- `build_struct_json_patch!` is the record `Patch`. Bytes of JSON are the text that they encode.
--
-- Runtime/Build: runtime/build.rs. Runtime/Version: `VERSION` and `native_version` of
-- runtime/src/lib.rs; Runtime/Types: its type aliases. Runtime/Blocks, Runtime/Config: the block
-- weights and the other configurations of runtime/src/configs/mod.rs; Runtime/Fees: what a call
-- costs by them; Runtime/Charges: the weight that a history of calls is charged. Runtime/Calls:
-- the pallets of runtime/src/lib.rs with their indices, and the encoding of calls that these fix.
-- Runtime/Calls/Execution hands a call that is given as bytes to its pallet, where the calls of
-- the pallets of FRAME are a parameter; Exact has which bytes are calls of the template pallet;
-- Refinement, Interleaving and Counting compare runs of such bytes with the counter and with each
-- other. Runtime/Aggregates: the types of events and errors that runtime/src/lib.rs makes of the
-- pallets, and the template pallet over them; Laws has what FRAME documents of the pallet's
-- storage, Reasons the errors of its calls as the runtime reports them, Log its events among those
-- of the other pallets, Served the results, the value and the events of bytes given as calls.
-- Runtime/Apis: runtime/src/apis.rs, every function of every interface; most pass their arguments
-- on to a pallet, which is a field of a record there. Runtime/Apis/Tools has the list of
-- runtime/src/benchmarks.rs too.
--
-- Node/ChainSpec: node/src/chain_spec.rs and `load_spec` of node/src/command.rs; Loading has what
-- any argument loads, Built has the genesis of the chains, Running a chain from its specification
-- on. Node/Benchmarking: node/src/benchmarking.rs. `checked_next_power_of_two` tries the 32 powers
-- of two that a `u32` can hold, so its fuel of 32 is exact: it gives `None` where the source does.
-- Node/Rpc: node/src/rpc.rs. Node/Service: node/src/service.rs. The service is built in stages, in
-- the order of `new_full`; the state is the log of the tasks that were spawned, with the name, the
-- group and the kind that the source gives them. Shared pointers are values, and a handle of the
-- task manager is the task manager. Node/Service/Tasks has the plan of the tasks,
-- Node/Service/Failures the calls that may fail, Gives what `new_partial` returns, Stages and Runs
-- what each stage hands on and a whole run, Slots the slots of the author and of the import queue,
-- and Effects, Stops and Logs the rules for the steps of the construction. Node/Build:
-- node/build.rs. Node/Cli: node/src/cli.rs. Node/Command: `run` of node/src/command.rs and `main`
-- of node/src/main.rs after the parsing of the arguments, whose state is that log and the calls of
-- the commands' `run` methods. Node/Command/Keeps and Steps have the rules for what a run keeps
-- true of these calls, Given what each command is given, Factory the builders of extrinsics for
-- the benchmarks.
--
-- Not modelled: the parsing of arguments, which clap generates; the code that the macros of FRAME
-- generate beyond the calls of the pallet, their encoding, their dispatch by pallet and the types
-- of events and errors; and the defaults that `derive_impl` adds to the configuration of
-- frame_system. All of it is code of other crates, which the repository only names.
pub mod Base
pub mod Template
pub mod Runtime
pub mod Node
