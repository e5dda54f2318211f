-- ===== src/Stream.antt =====
-- The streaming layer, src/digitaltwin/streaming.py and src/digitaltwin/config.py: addresses, codecs,
-- topics, the transport client and the namespaced client.
pub mod Codec
pub mod Topic
pub mod Address
pub mod Backend
pub mod Client
pub mod Broker
pub mod Proxy
pub mod Endpoint
