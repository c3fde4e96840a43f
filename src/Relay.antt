-- ===== src/Relay.antt =====
-- cliprelay-relay/src/lib.rs: the relay server. Bucket is the rate limiter, Room the shared state and
-- the three operations on it, Session what one socket does, Server the sockets that interleave.
pub mod Bucket
pub mod Room
pub mod Session
pub mod Server
