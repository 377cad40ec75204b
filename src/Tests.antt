-- ===== src/Tests.antt =====
-- Tests by evaluation, and the theorems at concrete inputs.
mod Network
mod Duration
mod Resolver
mod Aliases
mod Broker
mod Mesh
mod Keys
mod Launch
mod Hosts
mod Replies
mod Config
mod Crypto
mod Ports
mod Guard
mod Policy
mod Workspace
mod Commands
mod Bindings
