-- ===== src/Gpu/Webgpu.antt =====
-- tools/webgpu-host.c: WGSL shaders with wgpu-native.
pub mod Api
pub mod Buffers
pub mod Run
pub mod Session
pub mod Main
pub mod Ends
