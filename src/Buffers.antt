-- ===== src/Buffers.antt =====
-- The buffers of src/api/types.rs: what a receiver fills and what a sender reads.
pub mod Areas
pub mod Writeable
pub mod Readable
pub mod Transfer
