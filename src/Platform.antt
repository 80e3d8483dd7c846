-- ===== src/Platform.antt =====
-- The parts of JavaScript and of the browser's standard library that the code under apps/ relies on:
-- numbers, their decimal print, `Array.prototype.slice` and `sort`, `URLSearchParams` and its
-- serialisation. They stand for no file of the repository.
pub mod Number
pub mod Decimal
pub mod Double
pub mod Sum
pub mod Slice
pub mod Sort
pub mod Query
pub mod Percent
