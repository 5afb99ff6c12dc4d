-- ===== src/Hal.antt =====
-- The hardware layer of erts/example/mini_beam_esp32: the interface of include/mb_hal.h and the
-- host's drivers behind it.
mod Defs
pub mod Board
pub mod Stub
pub mod Nrf52
pub mod EspIdf
pub use Defs.*
