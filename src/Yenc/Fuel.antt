-- ===== src/Yenc/Fuel.antt =====
-- How many rounds the loops of `decode` make. `Arguments` is about the loops over the arguments of a
-- keyword line, `Stages` about the other loops, and `Endless` about the inputs on which `decode`
-- never returns.
pub mod Arguments
pub mod Bodies
pub mod States
pub mod Stages
pub mod Progress
pub mod Loops
pub mod Endless
pub mod Preamble
