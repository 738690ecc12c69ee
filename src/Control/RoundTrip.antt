-- ===== src/Control/RoundTrip.antt =====
-- A file written by `write_file` reads back without a change.
pub mod Json
pub mod Display
pub mod Device
pub mod Whole
