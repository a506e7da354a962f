-- ===== src/Examples.antt =====
-- The programs of thruster/examples, as clients of the library.
pub mod ErrorHandling
pub mod MutableState
pub mod Nesting
pub mod UsingState
