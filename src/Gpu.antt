-- ===== src/Gpu.antt =====
-- The hosts of GPU kernels: tools/cuda-host.c and tools/webgpu-host.c. Both take buffers from the same
-- specifications and keep a session's buffers and kernels in a table of names.
pub mod Machine
pub mod Table
pub mod Words
pub mod Loop
pub mod Cuda
pub mod Webgpu
mod Examples
mod Toy
mod ToyApi
mod Tests
