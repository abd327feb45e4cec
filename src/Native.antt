-- ===== src/Native.antt =====
-- tools/native-host.c: the host of a module translated to C.
pub mod Machine
pub mod Memory
pub mod Parse
pub mod Alloc
pub mod Show
pub mod Call
pub mod Bench
pub mod Examples
mod Tests
pub mod Heap
