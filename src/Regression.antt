-- ===== src/Regression.antt =====
-- src/main_regression_host.c (erts/example/mini_beam_esp32): the regression tests of the host build.
pub mod Check
pub mod Compat
pub mod Sched
pub mod Terms
pub mod Heaps
pub mod Opcodes
pub mod Passes
