-- ===== src/Js.antt =====
-- What the frontend uses of JavaScript's numbers and strings: numbers as integers or NaN, `trim`,
-- `parseInt`, `toString` and `padStart`.
pub mod Number
pub mod Parse
pub mod Print
