-- ===== src/Tests.antt =====
-- Runs of the program's parts on concrete inputs, and the theorems at them.
mod Batcher
mod Answers
mod BrokerClient
mod CloudProvider
mod Delivery
mod Create
mod Startup
mod Fleet
mod Wiring
mod Controllers
mod Headroom
