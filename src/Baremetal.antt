-- ===== src/Baremetal.antt =====
-- tools/baremetal: the C library of the native host's bare-metal build, and the startup reports.
pub mod Uart
pub mod Libc
pub mod Format
pub mod Report
mod Tests
