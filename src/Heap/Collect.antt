-- ===== src/Heap/Collect.antt =====
-- What the collector of src/mb_heap.c (erts/example/mini_beam_esp32) keeps.
mod State
mod Moves
mod Forward
mod Invariant
mod MoveKeeps
mod ScanKeeps
mod Terms
mod Copy
mod Scan
mod Loop
mod Final
pub mod Observe
mod Alive
pub mod Result
mod Tests
