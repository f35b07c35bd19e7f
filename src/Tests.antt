-- ===== src/Tests.antt =====
-- Concrete inputs: the theorems applied to them, and runs of the models.
mod Tasks
mod Messages
mod Runtime
mod Plugins
mod Discovery
mod Migrations
mod Publishing
mod Creation
mod Consumers
