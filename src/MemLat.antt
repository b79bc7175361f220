-- ===== src/MemLat.antt =====
-- mem_lat.c: the random ring, the read and fill loops over it, and `main`.
pub mod Setup
pub mod Loops
pub mod Options
pub mod Parallel
pub mod Phases
