-- ===== src/Bucket.antt =====
-- src/RabbitMQToBucketQueue.ts: the consumer. `Defs` has its state, `Tick` one round of its loop,
-- `Life` the public methods, and the other children prove what these do.
pub mod Defs
pub mod Chunk
pub mod Calls
pub mod Items
pub mod Tick
pub mod Settle
pub mod Rate
pub mod Frame
pub mod Life
pub mod Boot
