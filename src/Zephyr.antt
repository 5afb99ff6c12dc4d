-- ===== src/Zephyr.antt =====
-- zephyr_app/src/main.c (erts/example/mini_beam_esp32): the parts of the Zephyr application that
-- compute, its bytecode emitter, its commands to processes, its watchdog rule, its boot counter and its
-- sensor scan.
pub mod Emit
pub mod Enqueue
pub mod Flow
pub mod Boot
pub mod MainLoop
pub mod Main
pub mod Monitor
pub mod Scan
mod Examples
