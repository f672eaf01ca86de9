-- ===== src/Bucket/Settle.antt =====
-- Every message that a tick takes from RabbitMQ is settled: acked or nacked, once.
pub mod Counts
pub mod Preparing
pub mod Chunks
pub mod Rounds
pub mod Never
