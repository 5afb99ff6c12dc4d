-- ===== src/Demos.antt =====
-- Programs of erts/example/mini_beam_esp32 that run some bytecode and check or print what it did:
-- src/main_stability_host.c, src/main_multiproc_host.c, src/main_host.c, src/main_mailbox_host.c,
-- src/main_flow_host.c and espidf_app/main/app_main.c.
pub mod Stability
pub mod Multiproc
pub mod Single
pub mod Flow
mod Tests
mod Runs
