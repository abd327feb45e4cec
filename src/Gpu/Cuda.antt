-- ===== src/Gpu/Cuda.antt =====
-- tools/cuda-host.c: PTX kernels with the CUDA driver.
pub mod Driver
pub mod Buffers
pub mod Run
pub mod Session
pub mod Main
pub mod Queue
pub mod Memory
