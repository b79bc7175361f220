-- ===== src/SortSpeed.antt =====
-- The sorting benchmarks of sortSpeed/.
pub mod Benchmark
pub mod Programs
pub mod Bags
pub mod Joins
mod Tests
pub mod Buckets
pub mod Items
pub mod Windows
pub mod Radix
pub mod Quick
pub mod Povit
pub mod Improved
pub mod Avx2
