-- ===== src/Stream.antt =====
-- stream_dynamic.c: the kernels over three arrays, the loop of `main`, the replay of
-- `checkSTREAMresults`, and the summary of the times.
pub mod Kernels
pub mod Replay
pub mod Check
pub mod Times
pub mod Program
pub mod Tests
