-- ===== src/Http.antt =====
-- The requests and responses of the homegrown server: thruster/src/core/request.rs and
-- thruster/src/core/response.rs.
pub mod Slice
pub mod Request
pub mod Decode
pub mod Framing
pub mod Arrival
pub mod Bounds
pub mod Numbers
pub mod Client
pub mod Response
pub mod Reply
