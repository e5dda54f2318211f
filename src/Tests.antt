-- ===== src/Tests.antt =====
-- Concrete runs at which the hypotheses of the theorems hold.
mod Streams
mod Barriers
mod Caches
mod Runtimes
mod Services
mod Flows
mod Endpoints
mod Hosts
mod Calls
mod Verbs
mod Faults
