-- ===== src/Yenc/Sound.antt =====
-- What `decode` has checked of a file that it returns.
pub mod Trailers
pub mod Headers
pub mod Rounds
pub mod Files
