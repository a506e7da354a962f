-- ===== src/Tests.antt =====
-- Runs of the model at concrete inputs, and the theorems at inputs that meet their hypotheses.
mod Sample
mod Routes
mod Arrivals
mod Grafts
mod Apps
mod Mounted
mod Wire
mod Services
mod Macros
mod Hypers
mod Hosted
mod Contexts
mod Bodies
pub mod Clients
mod Accepts
mod Threads
mod Pages
mod Locks
mod Nested
mod Stated
