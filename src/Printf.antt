-- ===== src/Printf.antt =====
-- The printf family of kernel/logging.cpp, from the output of characters up to `_vsnprintf`.
pub mod Output
pub mod Integer
pub mod Directive
pub mod Format
pub mod Double
pub mod Fixed
pub mod Exponential
pub mod Float
