-- ===== src/Tests.antt =====
-- Tests by evaluation, and the theorems at concrete inputs.
mod YencRuns
mod Witnesses
mod RoundTrips
mod Texts
mod Toy
mod Uploads
mod Saves
mod Downloads
