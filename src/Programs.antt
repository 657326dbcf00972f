-- ===== src/Programs.antt =====
-- The test programs of src/test: applications that use the library's public functions.
pub mod Events
pub mod Echo
