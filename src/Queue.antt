-- ===== src/Queue.antt =====
-- internal/shared/queue: how a message gets from a producer to the handler of its consumer.
pub mod Producers
pub mod Consumers
pub mod Sqs
pub mod Delivery
pub mod Acks
pub mod Backoff
mod Examples
