-- ===== src/Yenc/RoundTrip.antt =====
-- What `decode` makes of what `encode` writes.
pub mod Steps
pub mod Tokens
pub mod Fields
pub mod Headers
pub mod Begins
pub mod Parts
pub mod Trailers
pub mod Files
pub mod Decodes
pub mod Openings
pub mod Encodes
pub mod Sums
pub mod Throws
pub mod Lost
pub mod Empty
pub mod Whole
pub mod Failures
pub mod Body
