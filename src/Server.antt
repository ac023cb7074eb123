-- ===== src/Server.antt =====
-- server.rs: the work queue, the choice of a file, the responses.
pub mod Queue
pub mod Accept
pub mod Policy
pub mod Representation
pub mod Connection
pub mod Log
pub mod Workers
pub mod Run
