-- ===== src/Tests.antt =====
-- Tests of the model by evaluation, and the theorems at concrete inputs.
mod Sample
mod Balancer
mod Selection
mod Dispatch
mod Health
mod Policy
mod Usage
mod Checkers
mod Reload
mod Flows
mod Sniff
mod Socks
mod Server
mod Transparent
mod Relay
mod Startup
mod Status
