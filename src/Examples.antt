-- ===== src/Examples.antt =====
-- The theorems of the library at concrete inputs, by the part of the program that they are about.
mod Paths
mod Requests
mod Responses
mod Tools
mod Configs
mod Registries
mod Stores
mod Services
mod Daemons
mod Clients
mod Sessions
mod Manifests
mod Logins
