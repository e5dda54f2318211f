-- ===== src/Service.antt =====
-- The service that hosts twins for clients, src/digitaltwin/service/.
pub mod Wire
pub mod Twin
pub mod Plugin
pub mod Embedded
pub mod Client
pub mod Engines
pub mod Calls
pub mod Verbs
pub mod Requests
pub mod Registering
pub mod Streams
