-- ===== src/Http.antt =====
-- http.rs: requests, responses, dates.
pub mod Types
pub mod Bytes
pub mod Target
pub mod Date
pub mod Encodings
pub mod Parse
pub mod Response
pub mod Read
