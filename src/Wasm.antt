-- ===== src/Wasm.antt =====
-- tools/wasmtime-host.c: the host of a module that Wasmtime runs.
pub mod Machine
pub mod Outcome
pub mod Parse
pub mod Start
pub mod Memory
pub mod Alloc
pub mod Walk
pub mod Show
pub mod Args
pub mod Kinds
pub mod Results
pub mod Call
pub mod Checks
pub mod Script
pub mod Commands
pub mod ScriptLoop
pub mod Main
mod Tests
