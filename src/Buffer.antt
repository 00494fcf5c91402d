-- ===== src/Buffer.antt =====
-- pkg/structs/buffer: buffers that take their memory from a pool.
pub mod Pool
pub mod Pooled
pub mod Stream
pub mod Calls
