-- ===== src/Broker.antt =====
-- worker/broker: tasks that arrive as messages, and the replies that go out when they are done.
pub mod Settings
pub mod Outbox
pub mod Delivery
pub mod Ingress
pub mod Egress
pub mod Runner
